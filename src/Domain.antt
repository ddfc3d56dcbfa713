-- ===== src/Domain.antt =====
-- crates/domain/src: the types that the other crates share, without I/O. A UUID and an instant are
-- numbers.
pub mod Validation
use todo_rust.Prelude.{Bool, Option, ℕ}
use todo_rust.Text.{Text}

abbrev pub Uuid : Type 0
Uuid = ℕ

abbrev pub Time : Type 0
Time = ℕ

-- todo.rs
pub record TodoId : Type 0 where
  pub uuid : Uuid

-- user.rs
pub record UserId : Type 0 where
  pub uuid : Uuid

pub record Todo : Type 0 where
  pub id : TodoId
  pub owner_id : UserId
  pub title : Text
  pub completed : Bool
  pub created_at : Time
  pub updated_at : Time

pub record NewTodo : Type 0 where
  pub title : Text

pub record TodoUpdate : Type 0 where
  pub title : Option Text
  pub completed : Option Bool

pub record User : Type 0 where
  pub id : UserId
  pub email : Text
  pub password_hash : Text
  pub created_at : Time
  pub locale : Option Text
  pub timezone : Option Text

pub record NewUser : Type 0 where
  pub email : Text
  pub password : Text

pub record Credentials : Type 0 where
  pub email : Text
  pub password : Text
  pub next : Option Text
