-- ===== src/Storage/TodoRepo/Listing.antt =====
-- What `list_for_user` returns.
use mathlib.Core.List.{Perm}
use mathlib.Core.List.Perm
use todo_rust.Prelude.{
  All, Bool-cases, List, [], arith, false, inl, inr, map, select, subst, true, ◌==◌, ◌∷◌, ◌≡◌, ◌≤◌,
  ◌⊎◌,
}
use todo_rust.Domain.{Todo, UserId}
use todo_rust.Prelude.Exec.{ok}
use todo_rust.Storage.{Database, TodoRow, run_sql}
use todo_rust.Storage.TodoRepo.{in_order, insert_row, list_for_user, order_rows, row_to_todo}

-- Open todos stand before completed ones, and later ones before earlier ones.
abbrev pub MayPrecede : Todo → Todo → Type 0
MayPrecede a b =
    ((a.completed ≡ false) × (b.completed ≡ true))
    ⊎ ((a.completed ≡ b.completed) × (b.created_at ≤ a.created_at))

-- Each todo may precede all that follow it.
abbrev pub IsOrdered : List Todo → Type 0
IsOrdered [] = Unit
IsOrdered (a ∷ l) = All (MayPrecede a) l × IsOrdered l

-- The todos of a user's rows, in the order of the table.
abbrev pub owned_todos : UserId → List TodoRow → List Todo
owned_todos user rows = map row_to_todo (select (λ r. r.owner_id == user.uuid) rows)

abbrev RowPrecedes : TodoRow → TodoRow → Type 0
RowPrecedes a b = MayPrecede (row_to_todo a) (row_to_todo b)

abbrev RowsOrdered : List TodoRow → Type 0
RowsOrdered [] = Unit
RowsOrdered (a ∷ l) = All (RowPrecedes a) l × RowsOrdered l

in_order_sound : (a b : TodoRow) → in_order a b ≡ true → RowPrecedes a b
unfolding in_order row_to_todo
in_order_sound a b h = ground arith

in_order_total : (a b : TodoRow) → in_order a b ≡ false → RowPrecedes b a
unfolding in_order row_to_todo
in_order_total a b h = ground arith

RowPrecedes-trans : (a b c : TodoRow) → RowPrecedes a b → RowPrecedes b c → RowPrecedes a c
unfolding row_to_todo
RowPrecedes-trans a b c h k = ground arith

All-trans :
    (a b : TodoRow) (l : List TodoRow)
    → RowPrecedes a b
    → All (RowPrecedes b) l
    → All (RowPrecedes a) l
All-trans a b [] h k = tt
All-trans a b (c ∷ l) h (p, k) = (RowPrecedes-trans a b c h p, All-trans a b l h k)

All-insert_row :
    (a row : TodoRow) (l : List TodoRow)
    → RowPrecedes a row
    → All (RowPrecedes a) l
    → All (RowPrecedes a) (insert_row row l)
unfolding insert_row
All-insert_row a row [] h k = (h, tt)
All-insert_row a row (b ∷ l) h (p, k) = elim (Bool-cases (in_order row b)) [
  | inl first' ↦ rw first' (h, (p, k))
  | inr later ↦ rw later (p, All-insert_row a row l h k)
]

RowsOrdered-insert_row :
    (row : TodoRow) (l : List TodoRow) → RowsOrdered l → RowsOrdered (insert_row row l)
unfolding insert_row
RowsOrdered-insert_row row [] h = (tt, tt)
RowsOrdered-insert_row row (b ∷ l) (here, h) = elim (Bool-cases (in_order row b)) [
  | inl first' ↦
      let p = in_order_sound row b first' in rw first' ((p, All-trans row b l p here), (here, h))
  | inr later ↦
      rw later
        (All-insert_row b row l (in_order_total row b later) here, RowsOrdered-insert_row row l h)
]

RowsOrdered-order_rows : (rows : List TodoRow) → RowsOrdered (order_rows rows)
unfolding order_rows
RowsOrdered-order_rows [] = tt
RowsOrdered-order_rows (r ∷ rows) =
    RowsOrdered-insert_row r (order_rows rows) (RowsOrdered-order_rows rows)

IsOrdered-map : (rows : List TodoRow) → RowsOrdered rows → IsOrdered (map row_to_todo rows)
IsOrdered-map [] h = tt
IsOrdered-map (r ∷ rows) (here, h) = (go rows here, IsOrdered-map rows h)
  where
    go :
        (l : List TodoRow)
        → All (RowPrecedes r) l
        → All (MayPrecede (row_to_todo r)) (map row_to_todo l)
    go [] k = tt
    go (b ∷ l) (p, k) = (p, go l k)

perm-insert_row :
    (row : TodoRow) (l : List TodoRow)
    → Perm (map row_to_todo (insert_row row l)) (map row_to_todo (row ∷ l))
unfolding insert_row
perm-insert_row row [] = Perm.refl _
perm-insert_row row (b ∷ l) = elim (Bool-cases (in_order row b)) [
  | inl first' ↦ rw first' (Perm.refl _)
  | inr later ↦ rw later (Perm.trans (Perm.cons _ (perm-insert_row row l)) (Perm.swap _ _ _))
]

perm-order_rows :
    (rows : List TodoRow) → Perm (map row_to_todo (order_rows rows)) (map row_to_todo rows)
unfolding order_rows
perm-order_rows [] = Perm.refl _
perm-order_rows (r ∷ rows) =
    Perm.trans (perm-insert_row r (order_rows rows)) (Perm.cons _ (perm-order_rows rows))

listed :
    (user : UserId) (db : Database) (todos : List Todo)
    → (list_for_user user db).0 ≡ ok todos
    → (map row_to_todo (order_rows (select (λ r. r.owner_id == user.uuid) db.tables.todos)) ≡ todos)
      × ((list_for_user user db).1.tables ≡ db.tables)
unfolding list_for_user run_sql
listed user db todos h = ground arith

-- A list that a user is given holds exactly the todos of the rows that the user owns, each as often,
-- open ones before completed ones and, among either, later ones before earlier ones; and the tables
-- stay as they were.
pub list_for_user_lem :
    (user : UserId) (db : Database) (todos : List Todo)
    → (list_for_user user db).0 ≡ ok todos
    → Perm todos (owned_todos user db.tables.todos)
      × IsOrdered todos
      × ((list_for_user user db).1.tables ≡ db.tables)
list_for_user_lem user db todos h =
    let rows = select (λ (r : TodoRow). r.owner_id == user.uuid) db.tables.todos in
    let (same, kept) = listed user db todos h in
    (
      subst (λ l. Perm l (map row_to_todo rows)) same (perm-order_rows rows),
      subst IsOrdered same (IsOrdered-map (order_rows rows) (RowsOrdered-order_rows rows)),
      kept,
    )
