-- ===== src/Storage/TodoRepo/Refinement.antt =====
-- The repository of crates/storage/src/todo_repo.rs keeps its contract.
use todo_rust.Prelude.{
  Bool-cases, Option, Option-cases, ap, arith, inl, inr, none, refl, some, sym, true, ◌∙◌, ◌≡◌,
}
use todo_rust.Domain.{NewTodo, Time, Todo, TodoId, TodoUpdate, UserId}
use todo_rust.Prelude.Exec.{Result, err, ok}
use todo_rust.Storage.{Database, StorageError, check_violation, database, not_found, run_sql}
use todo_rust.Storage.TodoRepo.{get, is_row, list_for_user, new_row, row_to_todo, title_fits}
use todo_rust.Storage.TodoRepo.Answered.{
  changed_db, changed_met, changed_missed, changed_refused, sent_create, sent_delete, sent_toggle,
  sent_update,
}
use todo_rust.Storage.TodoRepo.Books.{book-deleted, book-inserted, put-none}
use todo_rust.Storage.TodoRepo.Calls.{
  Call, create_call, delete_call, get_call, list_call, perform, toggle_call, update_call,
}
use todo_rust.Storage.TodoRepo.Changes.{coalesce, flip}
use todo_rust.Storage.TodoRepo.Contract.{
  Book, IsAllowed, Promise, amended, book_of, if_fits, map_ok, promise, put, reply, store_todo,
  toggled,
}
use todo_rust.Storage.TodoRepo.Effects.{IsUp, length-select_iff, row_of}
use todo_rust.Storage.TodoRepo.Integrity.{HasIntegrity}
use todo_rust.Storage.TodoRepo.Lookups.{All-find}
use todo_rust.Text.{trim}

-- The answer and the book behind a call are what the contract says.
abbrev pub Keeps : UserId → Call → Database → Type 0
Keeps user c db =
    (reply user c db ≡ (promise user c (book_of user db.tables)).0)
    × (book_of user (perform user c db).tables ≡ (promise user c (book_of user db.tables)).1)

get-Keeps : (user : UserId) (id : TodoId) (db : Database) → IsUp db → Keeps user (get_call id) db
unfolding reply perform promise get run_sql
get-Keeps user id db h = elim (Option-cases (row_of user id db.tables)) [
  | inl e ↦ (ground (arith, h, e), ground (arith, h, e))
  | inr (row, e) ↦ (ground (arith, h, e), ground (arith, h, e))
]

-- The contract, where the book has no todo of the identifier, and where it has one.
module _ (user : UserId) (id : TodoId) (book : Book) where
  promise-eq-none :
      book id.uuid ≡ none
      → (now : Time) (changes : TodoUpdate)
      → (promise user (update_call now id changes) book ≡ (err not_found, book))
        × (promise user (toggle_call now id) book ≡ (err not_found, book))
        × (promise user (delete_call id) book ≡ (err not_found, book))
  unfolding promise
  promise-eq-none e now changes = (rw e, rw e, rw e)

  promise-eq-some :
      (todo : Todo)
      → book id.uuid ≡ some todo
      → (now : Time) (changes : TodoUpdate)
      → (promise user (update_call now id changes) book
          ≡ if_fits
              (amended now changes todo).title
              book
              (store_todo id (amended now changes todo) book))
        × (promise user (toggle_call now id) book ≡ store_todo id (toggled now todo) book)
        × (promise user (delete_call id) book ≡ (ok none, put id.uuid none book))
  unfolding promise
  promise-eq-some todo e now changes = (rw e, rw e, rw e)

-- An outcome that the contract has, under another name.
conclude :
    (user : UserId) (c : Call) (db : Database) (x : Result StorageError (Option Todo) × Database)
    (p : Promise)
    → reply user c db ≡ x.0
    → perform user c db ≡ x.1
    → promise user c (book_of user db.tables) ≡ p
    → (x.0 ≡ p.0) × (book_of user x.1.tables ≡ p.1)
    → Keeps user c db
conclude user c db x p replied performed promised (a, b) = (
  replied ∙ (a ∙ ap (λ (q : Promise). q.0) (sym promised)),
  ap (λ (d : Database). book_of user d.tables) performed
      ∙ (b ∙ ap (λ (q : Promise). q.1) (sym promised)),
)

-- What `update` and `toggle` do with their row is what the contract has.
abbrev optional : Result StorageError Todo × Database → Result StorageError (Option Todo) × Database
optional x = (map_ok some x.0, x.1)

delete-Keeps :
    (user : UserId) (id : TodoId) (db : Database) → IsUp db → Keeps user (delete_call id) db
unfolding reply perform
delete-Keeps user id db h =
    let sent = sent_delete user id db h in
    let none_met = length-select_iff (is_row user id) db.tables.todos in
    let book = book_of user db.tables in
    let deleted = book-deleted user id db.tables in
    let replied = ap (λ r. map_ok (λ _. none) r.0) sent in
    elim (Option-cases (row_of user id db.tables)) [
      | inl e ↦
          let (_, _, said) =
            promise-eq-none user id book (rw e) 0 (record { title = none; completed = none }) in
          conclude user (delete_call id) db (_, _) _ replied (ap (λ r. r.1) sent) said
            (ground (arith, e, none_met), deleted ∙ put-none id book (rw e))
      | inr (row, e) ↦
          let (_, _, said) =
            promise-eq-some user id book (row_to_todo row) (rw e) 0
              (record { title = none; completed = none }) in
          conclude user (delete_call id) db (_, _) _ replied (ap (λ r. r.1) sent) said
            (ground (arith, e, none_met), deleted)
    ]

create-Keeps :
    (now : Time) (fresh : TodoId) (user : UserId) (new : NewTodo) (db : Database)
    → IsUp db
    → IsAllowed user (create_call now fresh new) db.tables
    → Keeps user (create_call now fresh new) db
unfolding reply perform promise row_to_todo
create-Keeps now fresh user new db h allowed =
    let sent = sent_create now fresh user new db h allowed in
    let replied = ap (λ r. map_ok some r.0) sent in
    let book =
      book-inserted user (new_row now fresh user (trim new.title)) db.tables allowed.0 refl in
    elim (Bool-cases (title_fits (trim new.title))) [
      | inl fits ↦
          conclude user (create_call now fresh new) db (_, _) _ replied (ap (λ r. r.1) sent) refl
            (rw fits, rw fits book)
      | inr long ↦
          conclude user (create_call now fresh new) db (_, _) _ replied (ap (λ r. r.1) sent) refl
            (rw long, rw long)
    ]

toggle-Keeps :
    (now : Time) (user : UserId) (id : TodoId) (db : Database)
    → IsUp db
    → HasIntegrity db.tables
    → Keeps user (toggle_call now id) db
unfolding reply perform row_to_todo
toggle-Keeps now user id db h k =
    let sent = sent_toggle now user id db h in
    let outcome = optional (changed_db now flip user id db) in
    let book = book_of user db.tables in
    elim (Option-cases (row_of user id db.tables)) [
      | inl e ↦
          let (a, b) = changed_missed now flip user id (λ r. refl) (λ r. refl) db k.distinct e in
          let (_, said, _) =
            promise-eq-none user id book (rw e) now (record { title = none; completed = none }) in
          conclude user (toggle_call now id) db outcome _ (ap (λ r. map_ok some r.0) sent)
            (ap (λ r. r.1) sent) said ((rw a), b)
      | inr (row, e) ↦
          let fits : title_fits row.title ≡ true =
            All-find (λ r. title_fits r.title ≡ true) (is_row user id) db.tables.todos k.fitting row
              e in
          let (a, b) =
            changed_met now flip user id (λ r. refl) (λ r. refl) db k.distinct row e fits in
          let (_, said, _) =
            promise-eq-some user id book (row_to_todo row) (rw e) now
              (record { title = none; completed = none }) in
          conclude user (toggle_call now id) db outcome _ (ap (λ r. map_ok some r.0) sent)
            (ap (λ r. r.1) sent) said ((rw a), b)
    ]

update-Keeps :
    (now : Time) (user : UserId) (id : TodoId) (changes : TodoUpdate) (db : Database)
    → IsUp db
    → HasIntegrity db.tables
    → Keeps user (update_call now id changes) db
unfolding reply perform row_to_todo
update-Keeps now user id changes db h k =
    let sent = sent_update now user id changes db h in
    let outcome = optional (changed_db now (coalesce changes) user id db) in
    let book = book_of user db.tables in
    elim (Option-cases (row_of user id db.tables)) [
      | inl e ↦
          let (a, b) =
            changed_missed now (coalesce changes) user id (λ r. refl) (λ r. refl) db k.distinct e in
          let (said, _, _) = promise-eq-none user id book (rw e) now changes in
          conclude user (update_call now id changes) db outcome _ (ap (λ r. map_ok some r.0) sent)
            (ap (λ r. r.1) sent) said ((rw a), b)
      | inr (row, e) ↦
          let (said, _, _) = promise-eq-some user id book (row_to_todo row) (rw e) now changes in
          elim (Bool-cases (title_fits (coalesce changes row).title)) [
            | inl good ↦
                let (a, b) =
                  changed_met now (coalesce changes) user id (λ r. refl) (λ r. refl) db k.distinct
                    row e good in
                conclude user (update_call now id changes) db outcome
                  (store_todo id (amended now changes (row_to_todo row)) book)
                  (ap (λ r. map_ok some r.0) sent) (ap (λ r. r.1) sent) (said ∙ (rw good)) (rw a, b)
            | inr bad ↦
                let (a, b) =
                  changed_refused now (coalesce changes) user id (λ r. refl) (λ r. refl) db
                    k.distinct row e bad in
                conclude user (update_call now id changes) db outcome
                  (err (database check_violation), book) (ap (λ r. map_ok some r.0) sent)
                  (ap (λ r. r.1) sent) (said ∙ (rw bad)) (rw a, ap (λ t. book_of user t) b)
          ]
    ]

-- Over a connection that is up, on sound tables, each call of a user answers what the contract has
-- and leaves the user's book as the contract has it; a creation draws an identifier that is not in
-- use, for a user with an account.
pub perform-promise :
    (user : UserId) (c : Call) (db : Database)
    → IsUp db
    → HasIntegrity db.tables
    → IsAllowed user c db.tables
    → (reply user c db ≡ (promise user c (book_of user db.tables)).0)
      × (book_of user (perform user c db).tables ≡ (promise user c (book_of user db.tables)).1)
perform-promise user list_call db h k a =
    unfold reply perform promise list_for_user run_sql in (ground (arith, h), ground (arith, h))
perform-promise user (get_call id) db h k a = get-Keeps user id db h
perform-promise user (create_call now fresh new) db h k a = create-Keeps now fresh user new db h a
perform-promise user (update_call now id changes) db h k a = update-Keeps now user id changes db h k
perform-promise user (toggle_call now id) db h k a = toggle-Keeps now user id db h k
perform-promise user (delete_call id) db h k a = delete-Keeps user id db h
