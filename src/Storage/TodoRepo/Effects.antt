-- ===== src/Storage/TodoRepo/Effects.antt =====
-- What the methods return, and what a later call finds.
use todo_rust.Prelude.{
  Bool, List, Option, [], any, arith, false, find, length, map_option, none, not, refl, select,
  some, true, ◌++◌, ◌==◌, ◌↔◌, ◌∙◌, ◌∷◌, ◌≡◌,
}
use todo_rust.Domain.{NewTodo, Time, Todo, TodoId, UserId}
use todo_rust.Prelude.Exec.{Result, err, ok}
use todo_rust.Storage.{Database, StorageError, Tables, TodoRow, next_link, not_found, run_sql, up}
use todo_rust.Storage.TodoRepo.{create, delete, get, is_row, new_row, row_to_todo, touched, updated}
use todo_rust.Storage.TodoRepo.Integrity.{IsFresh, IsFresh-of_any}
use todo_rust.Text.{Text, trim}

-- The row that a statement with `id = $1 AND owner_id = $2` meets.
abbrev pub row_of : UserId → TodoId → Tables → Option TodoRow
row_of user id t = find (is_row user id) t.todos

find-append_self :
    (user : UserId) (id : TodoId) (row : TodoRow) (rows : List TodoRow)
    → IsFresh row.id rows
    → is_row user id row ≡ true
    → find (is_row user id) (rows ++ row ∷ []) ≡ some row
unfolding is_row
find-append_self user id row [] f h = ground arith
find-append_self user id row (r ∷ rows) (ne, f) h =
    ground (arith, find-append_self user id row rows f h)

-- A change that keeps identifier and owner is found where the row was.
pub find-updated :
    (now : Time) (set : TodoRow → TodoRow) (user : UserId) (id : TodoId)
    → ((r : TodoRow) → (set r).id ≡ r.id)
    → ((r : TodoRow) → (set r).owner_id ≡ r.owner_id)
    → (rows : List TodoRow)
    → find (is_row user id) (updated now set user id rows)
      ≡ map_option (touched now set) (find (is_row user id) rows)
unfolding is_row
find-updated now set user id same_id same_owner [] = refl
find-updated now set user id same_id same_owner (r ∷ rows) =
    ground (arith, same_id r, same_owner r, find-updated now set user id same_id same_owner rows)

find-deleted :
    (user : UserId) (id : TodoId) (rows : List TodoRow)
    → find (is_row user id) (select (λ r. not (is_row user id r)) rows) ≡ none
find-deleted user id [] = refl
find-deleted user id (r ∷ rows) = ground (arith, find-deleted user id rows)

pub length-select_iff :
    (p : TodoRow → Bool) (rows : List TodoRow) → (length (select p rows) ≡ 0) ↔ (find p rows ≡ none)
length-select_iff p [] = ground arith
length-select_iff p (r ∷ rows) = ground (arith, length-select_iff p rows)

-- A connection over which the coming command is answered.
abbrev pub IsUp : Database → Type 0
IsUp db = next_link db.links ≡ up

-- The answer to a request for one row.
abbrev pub answer_of : Option TodoRow → Result StorageError Todo
answer_of none = err not_found
answer_of (some row) = ok (row_to_todo row)

-- `get` returns the user's row of that identifier, or reports that there is none; with `get` shut,
-- this is all that the proofs below use of it.
pub get_lem :
    (user : UserId) (id : TodoId) (db : Database)
    → IsUp db
    → (get user id db).0 ≡ answer_of (row_of user id db.tables)
unfolding get run_sql
get_lem user id db h = ground arith

created :
    (now : Time) (fresh : TodoId) (user : UserId) (new : NewTodo) (db : Database) (todo : Todo)
    → (create now fresh user new db).0 ≡ ok todo
    → (any (λ r. r.id == fresh.uuid) db.tables.todos ≡ false)
      × ((create now fresh user new db).1.tables.todos
          ≡ db.tables.todos ++ new_row now fresh user (trim new.title) ∷ [])
      × (row_to_todo (new_row now fresh user (trim new.title)) ≡ todo)
unfolding create run_sql
created now fresh user new db todo h = ground arith

is_row-new_row :
    (now : Time) (id : TodoId) (user : UserId) (title : Text)
    → is_row user id (new_row now id user title) ≡ true
unfolding is_row
is_row-new_row now id user title = ground arith

-- A todo that `create` returned has the trimmed title and is open, and it is what `get` then returns
-- to its user, if that call is answered.
pub get-create :
    (now : Time) (fresh : TodoId) (user : UserId) (new : NewTodo) (db : Database) (todo : Todo)
    → (create now fresh user new db).0 ≡ ok todo
    → IsUp (create now fresh user new db).1
    → (todo.title ≡ trim new.title)
      × (todo.completed ≡ false)
      × ((get user fresh (create now fresh user new db).1).0 ≡ ok todo)
get-create now fresh user new db todo h up' =
    let (unused, rows, same) = created now fresh user new db todo h in
    let row = new_row now fresh user (trim new.title) in
    let met : row_of user fresh (create now fresh user new db).1.tables ≡ some row = rw rows (
      find-append_self user fresh row db.tables.todos
        (IsFresh-of_any fresh.uuid db.tables.todos unused)
        (is_row-new_row now fresh user (trim new.title))) in
    (
      rw (← same) (unfold row_to_todo in refl),
      rw (← same) (unfold row_to_todo in refl),
      get_lem user fresh (create now fresh user new db).1 up' ∙ (rw (met, same)),
    )

deleted :
    (user : UserId) (id : TodoId) (db : Database)
    → (delete user id db).0 ≡ ok tt
    → (delete user id db).1.tables.todos ≡ select (λ r. not (is_row user id r)) db.tables.todos
unfolding delete run_sql
deleted user id db h = ground arith

-- After a `delete` that succeeded, a `get` of the user that is answered reports "not found".
pub get-delete :
    (user : UserId) (id : TodoId) (db : Database)
    → (delete user id db).0 ≡ ok tt
    → IsUp (delete user id db).1
    → (get user id (delete user id db).1).0 ≡ err not_found
get-delete user id db h up' =
    get_lem user id (delete user id db).1 up'
    ∙ (rw (deleted user id db h, find-deleted user id db.tables.todos))

-- `delete`, if it is answered, reports "not found" just where the user has no row of that
-- identifier.
pub delete-eq-not_found_iff :
    (user : UserId) (id : TodoId) (db : Database)
    → IsUp db
    → ((delete user id db).0 ≡ err not_found) ↔ (row_of user id db.tables ≡ none)
unfolding delete run_sql
delete-eq-not_found_iff user id db h =
    ground (arith, length-select_iff (is_row user id) db.tables.todos)
