-- ===== src/Storage/TodoRepo/Contract.antt =====
-- What the repository of crates/storage/src/todo_repo.rs promises one user: a book of todos, one for
-- an identifier, without the order of the table, the rows of others and the statements.
use todo_rust.Prelude.{
  Option, any, false, if◌then◌else◌, map_option, none, not, some, true, unwrap_or, ◌==◌, ◌≡◌,
}
use todo_rust.Domain.{Time, Todo, TodoId, TodoUpdate, UserId, Uuid}
use todo_rust.Prelude.Exec.{Result, err, ok}
use todo_rust.Storage.{Database, StorageError, Tables, check_violation, database, not_found}
use todo_rust.Storage.TodoRepo.{
  create, delete, get, list_for_user, row_to_todo, title_fits, toggle, update,
}
use todo_rust.Storage.TodoRepo.Calls.{
  Call, create_call, delete_call, get_call, list_call, toggle_call, update_call,
}
use todo_rust.Storage.TodoRepo.Effects.{row_of}
use todo_rust.Text.{Text, trim}

-- The todo under an identifier.
abbrev pub Book : Type 0
Book = Uuid → Option Todo

abbrev pub put : Uuid → Option Todo → Book → Book
put id value book k = if k == id then value else book k

-- The book of a user in the tables.
abbrev pub book_of : UserId → Tables → Book
book_of user t k = map_option row_to_todo (row_of user (record { uuid = k }) t)

-- An answer, with the todo if the call returns one, and the book behind the call.
abbrev pub Promise : Type 0
Promise = Result StorageError (Option Todo) × Book

abbrev pub store_todo : TodoId → Todo → Book → Promise
store_todo id todo book = (ok (some todo), put id.uuid (some todo) book)

abbrev pub if_found : Book → Option Todo → (Todo → Promise) → Promise
if_found book none f = (err not_found, book)
if_found book (some todo) f = f todo

abbrev pub if_fits : Text → Book → Promise → Promise
if_fits title book p = if title_fits title then p else (err (database check_violation), book)

abbrev pub first_todo : Time → TodoId → UserId → Text → Todo
first_todo now id user title = record {
  id = id;
  owner_id = user;
  title = title;
  completed = false;
  created_at = now;
  updated_at = now;
}

-- The todo behind an update.
abbrev pub amended : Time → TodoUpdate → Todo → Todo
amended now changes todo = record todo {
  title = unwrap_or (map_option trim changes.title) todo.title;
  completed = unwrap_or changes.completed todo.completed;
  updated_at = now;
}

abbrev pub toggled : Time → Todo → Todo
toggled now todo = record todo { completed = not todo.completed; updated_at = now }

unfoldable pub promise : UserId → Call → Book → Promise
promise user list_call book = (ok none, book)
promise user (get_call id) book = if_found book (book id.uuid) (λ todo. (ok (some todo), book))
promise user (create_call now fresh new) book =
    if_fits (trim new.title) book
      (store_todo fresh (first_todo now fresh user (trim new.title)) book)
promise user (update_call now id changes) book = if_found book (book id.uuid) (λ todo.
    if_fits (amended now changes todo).title book (store_todo id (amended now changes todo) book))
promise user (toggle_call now id) book =
    if_found book (book id.uuid) (λ todo. store_todo id (toggled now todo) book)
promise user (delete_call id) book =
    if_found book (book id.uuid) (λ todo. (ok none, put id.uuid none book))

abbrev pub map_ok : {E A B : Type 0} → (A → B) → Result E A → Result E B
map_ok f (ok a) = ok (f a)
map_ok f (err e) = err e

-- What the repository answers; the list of `list_for_user` is left out.
unfoldable pub reply : UserId → Call → Database → Result StorageError (Option Todo)
reply user list_call db = map_ok (λ _. none) (list_for_user user db).0
reply user (get_call id) db = map_ok some (get user id db).0
reply user (create_call now fresh new) db = map_ok some (create now fresh user new db).0
reply user (update_call now id changes) db = map_ok some (update now user id changes db).0
reply user (toggle_call now id) db = map_ok some (toggle now user id db).0
reply user (delete_call id) db = map_ok (λ _. none) (delete user id db).0

-- What a creation asks: an identifier that is not in use, and a user with an account.
abbrev pub IsAllowed : UserId → Call → Tables → Type 0
IsAllowed user (create_call now fresh new) t =
    (any (λ r. r.id == fresh.uuid) t.todos ≡ false) × (any (λ u. u.id == user.uuid) t.users ≡ true)
IsAllowed user c t = Unit
