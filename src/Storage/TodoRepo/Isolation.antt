-- ===== src/Storage/TodoRepo/Isolation.antt =====
-- The calls of a user, and the rows of the other users.
use todo_rust.Prelude.{
  List, [], arith, inl, inr, map, not, refl, select, when, ◌++◌, ◌==◌, ◌∙◌, ◌∷◌, ◌≡◌,
}
use todo_rust.Domain.{Time, TodoId, UserId}
use todo_rust.Storage.{Database, Tables, TodoRow}
use todo_rust.Storage.TodoRepo.{delete_row, is_row, touched, update_row}
use todo_rust.Storage.TodoRepo.Calls.{
  Call, create_call, delete_call, effect, get_call, list_call, perform, perform_keeps, toggle_call,
  update_call,
}
use todo_rust.Storage.TodoRepo.Statements.{tables-insert_todo, tables-update_row}
use todo_rust.Text.{trim}

-- The rows of the other users, in the order of the table.
abbrev pub others : UserId → List TodoRow → List TodoRow
others user = select (λ r. not (r.owner_id == user.uuid))

others-append :
    (user : UserId) (row : TodoRow) (rows : List TodoRow)
    → row.owner_id ≡ user.uuid
    → others user (rows ++ row ∷ []) ≡ others user rows
others-append user row [] h = ground arith
others-append user row (r ∷ rows) h = ground (arith, others-append user row rows h)

others-update :
    (user : UserId) (id : TodoId) (f : TodoRow → TodoRow)
    → ((r : TodoRow) → (f r).owner_id ≡ r.owner_id)
    → (rows : List TodoRow)
    → others user (map (λ r. when (is_row user id r) f r) rows) ≡ others user rows
unfolding is_row
others-update user id f same [] = refl
others-update user id f same (r ∷ rows) = ground (arith, same r, others-update user id f same rows)

others-update_row :
    (now : Time) (set : TodoRow → TodoRow) (user : UserId) (id : TodoId) (t : Tables)
    → ((r : TodoRow) → (set r).owner_id ≡ r.owner_id)
    → others user (update_row now set user id t).1.todos ≡ others user t.todos
others-update_row now set user id t same = elim (tables-update_row now set user id t) [
  | inl old ↦ rw old
  | inr (_, next) ↦ rw next (others-update user id (touched now set) same t.todos)
]

others-delete :
    (user : UserId) (id : TodoId) (rows : List TodoRow)
    → others user (select (λ r. not (is_row user id r)) rows) ≡ others user rows
unfolding is_row
others-delete user id [] = refl
others-delete user id (r ∷ rows) = ground (arith, others-delete user id rows)

pub others-effect :
    (user : UserId) (c : Call) (t : Tables)
    → others user (effect user c t).todos ≡ others user t.todos
unfolding effect
others-effect user list_call t = refl
others-effect user (get_call id) t = refl
others-effect user (create_call now fresh new) t =
    elim (tables-insert_todo now fresh user (trim new.title) t) [
      | inl same ↦ rw same
      | inr (_, _, _, next) ↦ rw next (others-append user _ t.todos refl)
    ]
others-effect user (update_call now id changes) t = others-update_row now _ user id t (λ r. refl)
others-effect user (toggle_call now id) t = others-update_row now _ user id t (λ r. refl)
others-effect user (delete_call id) t = unfold delete_row in others-delete user id t.todos

-- Whatever a user calls, and whatever the network does, the rows of all other users stay as they
-- are, in their order.
pub others-perform :
    (user : UserId) (c : Call) (db : Database)
    → others user (perform user c db).tables.todos ≡ others user db.tables.todos
others-perform user c db =
    perform_keeps (λ t. others user t.todos ≡ others user db.tables.todos) user c db
      (λ t h. others-effect user c t ∙ h) refl
