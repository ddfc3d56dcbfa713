-- ===== src/Domain/Validation.antt =====
-- The checks that `#[derive(Validate)]` makes from the attributes in crates/domain/src/todo.rs and
-- user.rs. The `validator` crate is not part of the repository: its two tests are parameters.
use todo_rust.Prelude.{
  Bool, List, Option, [], false, length, none, some, true, ℕ, ◌++◌, ◌↔◌, ◌∷◌, ◌≡◌, ◌≤◌,
}
use todo_rust.Domain.{Credentials, NewTodo, NewUser, TodoUpdate}
use todo_rust.Text.{Text, codes}

pub record ValidationError : Type 0 where
  pub code : Text
  pub message : Option Text

-- The failed checks of each field that has one.
abbrev pub ValidationErrors : Type 0
ValidationErrors = List (Text × List ValidationError)

pub record Validator : Type 0 where
  pub validate_email : Text → Bool
  pub validate_length : Text → ℕ → ℕ → Bool

-- `length(min = …, max = …)` counts characters, both bounds included.
pub record CountsChars (v : Validator) : Type 0 where
  pub length_iff :
      (t : Text) (lo hi : ℕ)
      → (v.validate_length t lo hi ≡ true) ↔ ((lo ≤ length t) × (length t ≤ hi))

-- One field with one attribute.
unfoldable pub check_field : Bool → Text → Text → Text → ValidationErrors
check_field true field code message = []
check_field false field code message =
    (field, record { code = code; message = some message } ∷ []) ∷ []

pub title_length : Text
title_length = codes "validation-todo-title-length"

module _ (v : Validator) where
  unfoldable pub validate_new_todo : NewTodo → ValidationErrors
  unfolding check_field title_length
  validate_new_todo new =
      check_field (v.validate_length new.title 1 280) (codes "title") (codes "length") title_length

  -- A missing title is not checked.
  unfoldable pub validate_todo_update : TodoUpdate → ValidationErrors
  unfolding check_field title_length
  validate_todo_update update = elim update.title [
    | none ↦ []
    | some title ↦
        check_field (v.validate_length title 1 280) (codes "title") (codes "length") title_length
  ]

  unfoldable pub validate_new_user : NewUser → ValidationErrors
  unfolding check_field
  validate_new_user new =
      check_field (v.validate_email new.email) (codes "email") (codes "email")
        (codes "validation-email-invalid")
      ++ check_field (v.validate_length new.password 12 256) (codes "password") (codes "length")
          (codes "validation-password-too-short")

  unfoldable pub validate_credentials : Credentials → ValidationErrors
  unfolding check_field
  validate_credentials creds =
      check_field (v.validate_email creds.email) (codes "email") (codes "email")
        (codes "validation-email-invalid")
      ++ check_field (v.validate_length creds.password 1 256) (codes "password") (codes "length")
          (codes "validation-password-empty")
