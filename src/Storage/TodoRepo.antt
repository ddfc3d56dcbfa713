-- ===== src/Storage/TodoRepo.antt =====
-- crates/storage/src/todo_repo.rs: the statements of the repository over the table of
-- migrations/0001_init.sql, and its methods.
pub mod Runs
pub mod Answered
pub mod Books
pub mod Contract
pub mod Lookups
pub mod Refinement
pub mod BlankTitles
pub mod Statements
pub mod Calls
pub mod Isolation
pub mod Integrity
pub mod Listing
pub mod Effects
pub mod Changes
use todo_rust.Prelude.{
  Bool, List, Option, [], all, any, false, find, if◌then◌else◌, leb, length, map, map_option, not,
  select, true, unwrap_or, when, ℕ, ◌&&◌, ◌++◌, ◌==◌, ◌||◌, ◌∷◌,
}
use todo_rust.Domain.{NewTodo, Time, Todo, TodoId, TodoUpdate, UserId}
use todo_rust.Prelude.Exec.{Exec, err, ok, ok_or, pure, raise, ◌>>=◌, ◌>>◌}
use todo_rust.Storage.{
  Database, Statement, StorageError, TodoRow, check_violation, foreign_key_violation, not_found,
  query, unique_violation,
}
use todo_rust.Text.{Text, trim}

-- `WHERE id = $1 AND owner_id = $2`
unfoldable pub is_row : UserId → TodoId → TodoRow → Bool
is_row user id row = row.id == id.uuid && row.owner_id == user.uuid

-- `CHECK (LENGTH(title) BETWEEN 1 AND 280)`
unfoldable pub title_fits : Text → Bool
title_fits title = leb 1 (length title) && leb (length title) 280

-- `completed ASC, created_at DESC`: whether `a` may stand before `b`.
unfoldable pub in_order : TodoRow → TodoRow → Bool
in_order a b = elim a.completed [
  | false ↦ elim b.completed [ false ↦ leb b.created_at a.created_at | true ↦ true ]
  | true ↦ elim b.completed [ false ↦ false | true ↦ leb b.created_at a.created_at ]
]

unfoldable pub insert_row : TodoRow → List TodoRow → List TodoRow
insert_row row [] = row ∷ []
insert_row row (next ∷ rows) =
    let later = insert_row row rows in if in_order row next then row ∷ next ∷ rows else next ∷ later

-- Rows that tie keep the order of the table; SQL leaves it open.
unfoldable pub order_rows : List TodoRow → List TodoRow
order_rows [] = []
order_rows (row ∷ rows) = insert_row row (order_rows rows)

unfoldable pub row_to_todo : TodoRow → Todo
row_to_todo row = record {
  id = record { uuid = row.id };
  owner_id = record { uuid = row.owner_id };
  title = row.title;
  completed = row.completed;
  created_at = row.created_at;
  updated_at = row.updated_at;
}

unfoldable pub select_owned : UserId → Statement (List TodoRow)
select_owned user t = (ok (order_rows (select (λ r. r.owner_id == user.uuid) t.todos)), t)

unfoldable pub select_row : UserId → TodoId → Statement (Option TodoRow)
select_row user id t = (ok (find (is_row user id) t.todos), t)

-- The row of a new todo, with the defaults of its other columns.
abbrev pub new_row : Time → TodoId → UserId → Text → TodoRow
new_row now id user title = record {
  id = id.uuid;
  owner_id = user.uuid;
  title = title;
  completed = false;
  created_at = now;
  updated_at = now;
}

-- The check constraint, the primary key and the foreign key, in the order in which Postgres tests
-- them; then the row.
unfoldable pub insert_todo : Time → TodoId → UserId → Text → Statement TodoRow
insert_todo now id user title t =
    if not (title_fits title)
    then (err check_violation, t)
    else if any (λ r. r.id == id.uuid) t.todos
    then (err unique_violation, t)
    else if not (any (λ u. u.id == user.uuid) t.users)
    then (err foreign_key_violation, t)
    else (
      ok (new_row now id user title),
      record t { todos = t.todos ++ new_row now id user title ∷ [] },
    )

-- The trigger `todos_touch_updated` behind a change of a row.
abbrev pub touched : Time → (TodoRow → TodoRow) → TodoRow → TodoRow
touched now set r = record (set r) { updated_at = now }

-- The rows after a change of those that are met.
abbrev pub updated : Time → (TodoRow → TodoRow) → UserId → TodoId → List TodoRow → List TodoRow
updated now set user id = map (λ r. when (is_row user id r) (touched now set) r)

-- Whether the new title of each row that is met passes the check constraint.
abbrev pub update_fits : Time → (TodoRow → TodoRow) → UserId → TodoId → List TodoRow → Bool
update_fits now set user id =
    all (λ r. not (is_row user id r) || title_fits (touched now set r).title)

-- `UPDATE todos SET … WHERE … RETURNING …`; `COALESCE($n, column)` is `unwrap_or`.
unfoldable pub update_row :
    Time → (TodoRow → TodoRow) → UserId → TodoId → Statement (Option TodoRow)
update_row now set user id t =
    if update_fits now set user id t.todos
    then (
      ok (find (is_row user id) (updated now set user id t.todos)),
      record t { todos = updated now set user id t.todos },
    )
    else (err check_violation, t)

-- The number of rows deleted.
unfoldable pub delete_row : UserId → TodoId → Statement ℕ
delete_row user id t = (
  ok (length (select (is_row user id) t.todos)),
  record t { todos = select (λ r. not (is_row user id r)) t.todos },
)

-- `row.as_ref().map(row_to_todo).ok_or(StorageError::NotFound)`
abbrev found : Option TodoRow → Exec StorageError Database Todo
found row = ok_or (map_option row_to_todo row) not_found

unfoldable pub list_for_user : UserId → Exec StorageError Database (List Todo)
unfolding select_owned
list_for_user user = do rows ← query (select_owned user); pure (map row_to_todo rows)

-- `fresh` is the identifier that `TodoId::new()` draws.
unfoldable pub create : Time → TodoId → UserId → NewTodo → Exec StorageError Database Todo
unfolding insert_todo
create now fresh user new = do
  let title = trim new.title
  row ← query (insert_todo now fresh user title)
  pure (row_to_todo row)

unfoldable pub get : UserId → TodoId → Exec StorageError Database Todo
unfolding select_row
get user id = do row ← query (select_row user id); found row

unfoldable pub update : Time → UserId → TodoId → TodoUpdate → Exec StorageError Database Todo
unfolding update_row
update now user id changes = do
  let title = map_option trim changes.title
  row ← query (
      update_row now
        (λ r. record r {
          title = unwrap_or title r.title;
          completed = unwrap_or changes.completed r.completed;
        })
        user id)
  found row

unfoldable pub toggle : Time → UserId → TodoId → Exec StorageError Database Todo
unfolding update_row
toggle now user id = do
  row ← query (update_row now (λ r. record r { completed = not r.completed }) user id)
  found row

unfoldable pub delete : UserId → TodoId → Exec StorageError Database (Unit {0})
unfolding delete_row
delete user id = do
  rows_affected ← query (delete_row user id)
  if rows_affected == 0 then raise not_found else pure tt
