-- ===== src/Tests/Fixtures.antt =====
-- Users, rows and a database, and concrete functions for the libraries.
use todo_rust.Prelude.{Bool, List, [], arith, false, leb, length, none, some, true, ℕ, ◌&&◌, ◌∷◌}
use todo_rust.Domain.{NewTodo, Todo, TodoId, UserId}
use todo_rust.Domain.Validation.{CountsChars, Validator}
use todo_rust.Storage.{Database, Tables, TodoRow, UserRow}
use todo_rust.Storage.TodoRepo.{updated}
use todo_rust.Storage.UserRepo.{Accounts}
use todo_rust.Text.{Text, codes, text_eq}

abbrev pub alice : UserId
alice = record { uuid = 1 }

abbrev pub bob : UserId
bob = record { uuid = 2 }

abbrev pub account : ℕ → Text → Text → UserRow
account id email hash = record {
  id = id;
  email = email;
  password_hash = hash;
  created_at = 1;
  updated_at = 1;
  locale = none;
  timezone = none;
}

abbrev pub todo_row : ℕ → ℕ → Text → Bool → TodoRow
todo_row id owner title completed = record {
  id = id;
  owner_id = owner;
  title = title;
  completed = completed;
  created_at = id;
  updated_at = id;
}

abbrev pub two_users : List UserRow
two_users = account 1 (codes "a@b") (codes "secret") ∷ account 2 (codes "b@b") (codes "other") ∷ []

abbrev pub two_todos : List TodoRow
two_todos = todo_row 10 1 (codes "milk") false ∷ todo_row 11 2 (codes "tea") true ∷ []

abbrev pub tables : Tables
tables = record { users = two_users; todos = two_todos }

abbrev pub db : Database
db = record { tables = tables; links = [] }

abbrev pub milk : TodoId
milk = record { uuid = 10 }

abbrev pub fresh_id : TodoId
fresh_id = record { uuid = 12 }

abbrev pub new_eggs : NewTodo
new_eggs = record { title = codes " eggs " }

abbrev pub todo_of : ℕ → ℕ → Text → Bool → ℕ → ℕ → Todo
todo_of id owner title completed created updated = record {
  id = record { uuid = id };
  owner_id = record { uuid = owner };
  title = title;
  completed = completed;
  created_at = created;
  updated_at = updated;
}

-- The validator's length, by the native numbers; every address passes.
abbrev pub validator : Validator
validator = record {
  validate_email = λ t. true;
  validate_length = λ t lo hi. leb lo (length t) && leb (length t) hi;
}

pub validator-CountsChars : CountsChars validator
validator-CountsChars = record { length_iff = λ t lo hi. ground arith }

-- A password is its own hash.
abbrev pub accounts : Accounts
accounts = record {
  lower = λ t. t;
  generate_hash = λ salt password. some password;
  verify_password = λ password hash. some (text_eq password hash);
}
