-- ===== src/Storage/TodoRepo/Answered.antt =====
-- The methods of crates/storage/src/todo_repo.rs over a connection that is up: what they answer, and
-- the tables behind them.
use todo_rust.Prelude.{
  [], arith, false, find, if◌then◌else◌, length, none, not, select, some, true, ◌++◌, ◌==◌, ◌∷◌,
  ◌≡◌,
}
use todo_rust.Domain.{NewTodo, Time, Todo, TodoId, TodoUpdate, UserId}
use todo_rust.Prelude.Exec.{Result, err, ok}
use todo_rust.Storage.{
  Database, StorageError, TodoRow, check_violation, database, not_found, rest_links, run_sql,
}
use todo_rust.Storage.TodoRepo.{
  create, delete, delete_row, insert_todo, is_row, new_row, row_to_todo, title_fits, toggle,
  touched, update, update_fits, update_row, updated,
}
use todo_rust.Storage.TodoRepo.Books.{book-updated, book-updated-none}
use todo_rust.Storage.TodoRepo.Calls.{create_call}
use todo_rust.Storage.TodoRepo.Changes.{coalesce, flip}
use todo_rust.Storage.TodoRepo.Contract.{IsAllowed, book_of, put}
use todo_rust.Storage.TodoRepo.Effects.{IsUp, answer_of, find-updated, row_of}
use todo_rust.Storage.TodoRepo.Integrity.{HasDistinctIds}
use todo_rust.Storage.TodoRepo.Lookups.{update_fits-find}
use todo_rust.Text.{trim}

-- The answer and the rows behind a change of one row, in whatever way the row is changed.
abbrev pub changed_db :
    Time → (TodoRow → TodoRow) → UserId → TodoId → Database → Result StorageError Todo × Database
changed_db now set user id db =
    if update_fits now set user id db.tables.todos
    then (
      answer_of (find (is_row user id) (updated now set user id db.tables.todos)),
      record {
        tables = record db.tables { todos = updated now set user id db.tables.todos };
        links = rest_links db.links;
      },
    )
    else (err (database check_violation), record db { links = rest_links db.links })

pub sent_update :
    (now : Time) (user : UserId) (id : TodoId) (changes : TodoUpdate) (db : Database)
    → IsUp db
    → update now user id changes db ≡ changed_db now (coalesce changes) user id db
unfolding update run_sql update_row
sent_update now user id changes db h = ground (arith, h)

pub sent_toggle :
    (now : Time) (user : UserId) (id : TodoId) (db : Database)
    → IsUp db
    → toggle now user id db ≡ changed_db now flip user id db
unfolding toggle run_sql update_row
sent_toggle now user id db h = ground (arith, h)

-- Only one row is met, as the identifiers are distinct.
module _ (now : Time) (set : TodoRow → TodoRow) (user : UserId) (id : TodoId)
    (same_id : (r : TodoRow) → (set r).id ≡ r.id)
    (same_owner : (r : TodoRow) → (set r).owner_id ≡ r.owner_id) (db : Database)
    (h : HasDistinctIds db.tables.todos) where
  pub changed_missed :
      row_of user id db.tables ≡ none
      → ((changed_db now set user id db).0 ≡ err not_found)
        × (book_of user (changed_db now set user id db).1.tables ≡ book_of user db.tables)
  changed_missed e =
      let fits = update_fits-find now set user id db.tables.todos h in
      let found = find-updated now set user id same_id same_owner db.tables.todos in
      let book = book-updated-none now set user id db.tables same_id same_owner e in
      (rw (fits, e, found, e), rw (fits, e) book)

  module _ (row : TodoRow) (e : row_of user id db.tables ≡ some row) where
    pub changed_met :
        title_fits (touched now set row).title ≡ true
        → ((changed_db now set user id db).0 ≡ ok (row_to_todo (touched now set row)))
          × (book_of user (changed_db now set user id db).1.tables
              ≡ put id.uuid (some (row_to_todo (touched now set row))) (book_of user db.tables))
    changed_met good =
        let fits = update_fits-find now set user id db.tables.todos h in
        let found = find-updated now set user id same_id same_owner db.tables.todos in
        let book = book-updated now set user id db.tables row same_id same_owner e in
        (rw (fits, e, good, found, e), rw (fits, e, good) book)

    pub changed_refused :
        title_fits (touched now set row).title ≡ false
        → ((changed_db now set user id db).0 ≡ err (database check_violation))
          × ((changed_db now set user id db).1.tables ≡ db.tables)
    changed_refused bad =
        let fits = update_fits-find now set user id db.tables.todos h in
        (rw (fits, e, bad), rw (fits, e, bad))

pub sent_delete :
    (user : UserId) (id : TodoId) (db : Database)
    → IsUp db
    → delete user id db ≡ (
      (if length (select (is_row user id) db.tables.todos) == 0 then err not_found else ok tt),
      record {
        tables = record db.tables { todos = select (λ r. not (is_row user id r)) db.tables.todos };
        links = rest_links db.links;
      },
    )
unfolding delete run_sql delete_row
sent_delete user id db h = ground (arith, h)

pub sent_create :
    (now : Time) (fresh : TodoId) (user : UserId) (new : NewTodo) (db : Database)
    → IsUp db
    → IsAllowed user (create_call now fresh new) db.tables
    → create now fresh user new db ≡ (
        if title_fits (trim new.title)
        then (
          ok (row_to_todo (new_row now fresh user (trim new.title))),
          record {
            tables = record db.tables {
              todos = db.tables.todos ++ new_row now fresh user (trim new.title) ∷ [];
            };
            links = rest_links db.links;
          },
        )
        else (err (database check_violation), record db { links = rest_links db.links }))
unfolding create run_sql insert_todo
sent_create now fresh user new db h (unused, known) = ground (arith, h, unused, known)
