-- ===== src/Storage/TodoRepo/Runs.antt =====
-- Calls of a user one after another (crates/storage/src/todo_repo.rs), against the contract.
use todo_rust.Prelude.{List, Option, [], refl, ◌∷◌, ◌≡◌}
use todo_rust.Domain.{Todo, UserId}
use todo_rust.Prelude.Exec.{Result}
use todo_rust.Storage.{Database, StorageError}
use todo_rust.Storage.TodoRepo.Calls.{Call, perform}
use todo_rust.Storage.TodoRepo.Contract.{Book, IsAllowed, book_of, promise, reply}
use todo_rust.Storage.TodoRepo.Effects.{IsUp}
use todo_rust.Storage.TodoRepo.Integrity.{HasIntegrity, perform-HasIntegrity}
use todo_rust.Storage.TodoRepo.Refinement.{perform-promise}

-- The answers to the calls, and the database behind them.
unfoldable pub answer_calls :
    UserId → List Call → Database → List (Result StorageError (Option Todo)) × Database
answer_calls user [] db = ([], db)
answer_calls user (c ∷ cs) db =
    let (rs, db') = answer_calls user cs (perform user c db) in (reply user c db ∷ rs, db')

-- What the contract has for them.
unfoldable pub promises :
    UserId → List Call → Book → List (Result StorageError (Option Todo)) × Book
promises user [] book = ([], book)
promises user (c ∷ cs) book =
    let (rs, book') = promises user cs (promise user c book).1 in
    ((promise user c book).0 ∷ rs, book')

-- Each call meets a connection that is up, and a creation draws an identifier that is not in use.
abbrev pub AreAllowed : UserId → List Call → Database → Type 0
AreAllowed user [] db = Unit
AreAllowed user (c ∷ cs) db =
    IsUp db × IsAllowed user c db.tables × AreAllowed user cs (perform user c db)

-- On tables that satisfy their constraints, the calls of a user one after another, each over a
-- connection that is up and each creation with an unused identifier and for a user with an account,
-- are answered as the contract has it, and leave the user the book that the contract has. Of the
-- answer to a listing, only the success is compared.
pub answer_calls-promises :
    (user : UserId) (cs : List Call) (db : Database)
    → HasIntegrity db.tables
    → AreAllowed user cs db
    → ((answer_calls user cs db).0 ≡ (promises user cs (book_of user db.tables)).0)
      × (book_of user (answer_calls user cs db).1.tables
          ≡ (promises user cs (book_of user db.tables)).1)
unfolding answer_calls promises
answer_calls-promises user [] db h a = (refl, refl)
answer_calls-promises user (c ∷ cs) db h (up', a, next_allowed) =
    let (replied, book) = perform-promise user c db up' h a in
    let (rest, books) =
      answer_calls-promises user cs (perform user c db) (perform-HasIntegrity user c db h)
        next_allowed in
    (rw (replied, ← book, rest), rw (← book) books)
