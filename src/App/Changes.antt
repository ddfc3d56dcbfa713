-- ===== src/App/Changes.antt =====
-- What one request may change of the tables: nothing, or what one statement changes.
pub mod Handlers
pub mod Sessions
pub mod Pages
pub mod Invariants
pub mod Isolation
use todo_rust.Prelude.{Bool, Option, some, ◌≡◌}
use todo_rust.Domain.{Time, User, UserId}
use todo_rust.Storage.{Tables}
use todo_rust.Storage.TodoRepo.Calls.{Call, effect}
use todo_rust.Storage.UserRepo.{Accounts, insert_user, update_user}
use todo_rust.Text.{Text}

-- The change by a request of the user of a session.
pub data Change (x : Accounts) (user : Option User) (t : Tables) (t' : Tables) : Type 0 where
  unchanged : t' ≡ t → Change x user t t'
  todo_change : (u : User) (c : Call) → user ≡ some u → t' ≡ effect u.id c t → Change x user t t'
  new_account :
      (now : Time) (fresh : UserId) (email hash : Text)
      → t' ≡ (insert_user x now fresh email hash t).1
      → Change x user t t'
  new_preferences :
      (u : User) (now : Time) (locale timezone : Bool × Option Text)
      → user ≡ some u
      → t' ≡ (update_user now u.id locale.0 locale.1 timezone.0 timezone.1 t).1
      → Change x user t t'
