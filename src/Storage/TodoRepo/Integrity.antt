-- ===== src/Storage/TodoRepo/Integrity.antt =====
-- The constraints of the table of todos (migrations/20260101000001_init.sql).
use todo_rust.Prelude.{
  All, All-append, All-select, Bool, Bool-cases, List, [], all, any, arith, false, inl, inr, map,
  not, refl, select, sym, true, when, ◌++◌, ◌==◌, ◌||◌, ◌∙◌, ◌∷◌, ◌≡◌, ◌≢◌,
}
use todo_rust.Domain.{Time, TodoId, UserId, Uuid}
use todo_rust.Storage.{Database, Tables, TodoRow, UserRow}
use todo_rust.Storage.TodoRepo.{
  delete_row, insert_todo, is_row, new_row, title_fits, touched, update_row,
}
use todo_rust.Storage.TodoRepo.Calls.{
  Call, create_call, delete_call, effect, get_call, list_call, perform, perform_keeps, toggle_call,
  update_call,
}
use todo_rust.Storage.TodoRepo.Statements.{tables-insert_todo, tables-update_row}
use todo_rust.Text.{Text, trim}

-- No row has the identifier.
abbrev pub IsFresh : Uuid → List TodoRow → Type 0
IsFresh id = All (λ r. r.id ≢ id)

abbrev pub HasDistinctIds : List TodoRow → Type 0
HasDistinctIds [] = Unit
HasDistinctIds (r ∷ rows) = IsFresh r.id rows × HasDistinctIds rows

-- Whether a user has the identifier.
abbrev pub is_user : List UserRow → Uuid → Bool
is_user users id = any (λ u. u.id == id) users

pub record HasIntegrity (t : Tables) : Type 0 where
  pub distinct : HasDistinctIds t.todos
  pub fitting : All (λ r. title_fits r.title ≡ true) t.todos
  pub owned : All (λ r. is_user t.users r.owner_id ≡ true) t.todos

pub IsFresh-of_any :
    (id : Uuid) (rows : List TodoRow) → any (λ r. r.id == id) rows ≡ false → IsFresh id rows
IsFresh-of_any id [] h = tt
IsFresh-of_any id (r ∷ rows) h = (ground arith, IsFresh-of_any id rows (ground arith))

HasDistinctIds-append :
    (rows : List TodoRow) (row : TodoRow)
    → HasDistinctIds rows
    → IsFresh row.id rows
    → HasDistinctIds (rows ++ row ∷ [])
HasDistinctIds-append [] row h f = (tt, tt)
HasDistinctIds-append (r ∷ rows) row (here, later) (ne, f) = (
  All-append (λ s. s.id ≢ r.id) rows (row ∷ []) here (λ e. ne (sym e), tt),
  HasDistinctIds-append rows row later f,
)

module _ (p : TodoRow → Bool) where
  HasDistinctIds-select :
      (rows : List TodoRow) → HasDistinctIds rows → HasDistinctIds (select p rows)
  HasDistinctIds-select [] h = tt
  HasDistinctIds-select (r ∷ rows) (here, later) = elim (Bool-cases (p r)) [
    | inl yes' ↦
        rw yes' (All-select (λ s. s.id ≢ r.id) p rows here, HasDistinctIds-select rows later)
    | inr no' ↦ rw no' (HasDistinctIds-select rows later)
  ]

-- A predicate that the change of a row keeps is kept by the change of those that are met.
module _ (P : TodoRow → Type 0) (p : TodoRow → Bool) (f : TodoRow → TodoRow) where
  All-map_when :
      (rows : List TodoRow)
      → ((r : TodoRow) → p r ≡ true → P r → P (f r))
      → All P rows
      → All P (map (λ r. when (p r) f r) rows)
  All-map_when [] keep h = tt
  All-map_when (r ∷ rows) keep (here, later) = elim (Bool-cases (p r)) [
    | inl yes' ↦ (rw yes' (keep r yes' here), All-map_when rows keep later)
    | inr no' ↦ (rw no' here, All-map_when rows keep later)
  ]

HasDistinctIds-map :
    (f : TodoRow → TodoRow)
    → ((r : TodoRow) → (f r).id ≡ r.id)
    → (rows : List TodoRow) → HasDistinctIds rows
    → HasDistinctIds (map f rows)
HasDistinctIds-map f same [] h = tt
HasDistinctIds-map f same (r ∷ rows) (here, later) =
    (fresh rows here, HasDistinctIds-map f same rows later)
  where
    fresh : (l : List TodoRow) → IsFresh r.id l → IsFresh (f r).id (map f l)
    fresh [] h = tt
    fresh (s ∷ l) (ne, h) = ((λ e. ne (sym (same s) ∙ (e ∙ same r))), fresh l h)

-- What the check of an update says of each row that is met.
checked :
    (p : TodoRow → Bool) (f : TodoRow → TodoRow) (rows : List TodoRow)
    → all (λ r. not (p r) || title_fits (f r).title) rows ≡ true
    → All (λ r. title_fits r.title ≡ true) rows
    → All (λ r. title_fits r.title ≡ true) (map (λ r. when (p r) f r) rows)
checked p f [] h k = tt
checked p f (r ∷ rows) h (fits, k) = (ground arith, checked p f rows (ground arith) k)

insert-HasIntegrity :
    (now : Time) (id : TodoId) (user : UserId) (title : Text) (t : Tables)
    → HasIntegrity t
    → HasIntegrity (insert_todo now id user title t).1
insert-HasIntegrity now id user title t h = elim (tables-insert_todo now id user title t) [
  | inl same ↦ rw same h
  | inr (fits, fresh, known, next) ↦ rw next (record {
    distinct =
        HasDistinctIds-append t.todos (new_row now id user title) h.distinct
          (IsFresh-of_any id.uuid t.todos fresh);
    fitting = All-append (λ r. title_fits r.title ≡ true) t.todos _ h.fitting (fits, tt);
    owned = All-append (λ r. is_user t.users r.owner_id ≡ true) t.todos _ h.owned (known, tt);
  })
]

module _ (now : Time) (set : TodoRow → TodoRow) (user : UserId) (id : TodoId)
    (same_id : (r : TodoRow) → (set r).id ≡ r.id)
    (same_owner : (r : TodoRow) → (set r).owner_id ≡ r.owner_id) where
  when-id : (r : TodoRow) → (when (is_row user id r) (touched now set) r).id ≡ r.id
  when-id r = ground (arith, same_id r)

  update-HasIntegrity :
      (t : Tables) → HasIntegrity t → HasIntegrity (update_row now set user id t).1
  update-HasIntegrity t h = elim (tables-update_row now set user id t) [
    | inl same ↦ rw same h
    | inr (fits, next) ↦ rw next (record {
      distinct =
          HasDistinctIds-map (λ r. when (is_row user id r) (touched now set) r) when-id t.todos
            h.distinct;
      fitting = checked (is_row user id) (touched now set) t.todos fits h.fitting;
      owned =
          All-map_when (λ r. is_user t.users r.owner_id ≡ true) (is_row user id) (touched now set)
            t.todos (λ r met k. rw same_owner k) h.owned;
    })
  ]

delete-HasIntegrity :
    (user : UserId) (id : TodoId) (t : Tables)
    → HasIntegrity t
    → HasIntegrity (delete_row user id t).1
unfolding delete_row
delete-HasIntegrity user id t h = record {
  distinct = HasDistinctIds-select (λ r. not (is_row user id r)) t.todos h.distinct;
  fitting =
      All-select (λ r. title_fits r.title ≡ true) (λ r. not (is_row user id r)) t.todos h.fitting;
  owned =
      All-select (λ r. is_user t.users r.owner_id ≡ true) (λ r. not (is_row user id r)) t.todos
        h.owned;
}

pub effect-HasIntegrity :
    (user : UserId) (c : Call) (t : Tables) → HasIntegrity t → HasIntegrity (effect user c t)
unfolding effect
effect-HasIntegrity user list_call t h = h
effect-HasIntegrity user (get_call id) t h = h
effect-HasIntegrity user (create_call now fresh new) t h =
    insert-HasIntegrity now fresh user (trim new.title) t h
effect-HasIntegrity user (update_call now id changes) t h =
    update-HasIntegrity now _ user id (λ r. refl) (λ r. refl) t h
effect-HasIntegrity user (toggle_call now id) t h =
    update-HasIntegrity now _ user id (λ r. refl) (λ r. refl) t h
effect-HasIntegrity user (delete_call id) t h = delete-HasIntegrity user id t h

-- In tables where the identifiers of the todos are distinct, every title has 1 to 280 characters and
-- every owner is a user, all this holds after any call of any user, whatever the network does.
pub perform-HasIntegrity :
    (user : UserId) (c : Call) (db : Database)
    → HasIntegrity db.tables
    → HasIntegrity (perform user c db).tables
perform-HasIntegrity user c db h =
    perform_keeps HasIntegrity user c db (effect-HasIntegrity user c) h
