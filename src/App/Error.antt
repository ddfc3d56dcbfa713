-- ===== src/App/Error.antt =====
-- crates/app/src/error.rs: the errors of the handlers, and the response that each becomes.
use todo_rust.Prelude.{[], ℕ, ◌++◌, ◌∷◌}
use todo_rust.App.Http.{Response}
use todo_rust.Storage.{
  SqlxError, StorageError, database, hashing, invalid_credentials, join_error, migrate,
}
use todo_rust.Text.{Text, codes}

pub data AppError : Type 0 where
  unauthorized forbidden not_found : AppError
  conflict validation : Text → AppError
  rate_limited template : AppError
  internal : Text → AppError

unfoldable pub status_of : AppError → ℕ
status_of unauthorized = 401
status_of forbidden = 403
status_of not_found = 404
status_of (conflict m) = 409
status_of (validation m) = 422
status_of rate_limited = 429
status_of template = 500
status_of (internal m) = 500

unfoldable pub body_of : AppError → Text
body_of unauthorized = codes "unauthorized"
body_of forbidden = codes "forbidden"
body_of not_found = codes "not found"
body_of (conflict m) = m
body_of (validation m) = m
body_of (internal m) = m
body_of rate_limited = codes "too many requests"
body_of template = codes "template error"

unfoldable pub into_response : AppError → Response
unfolding status_of body_of
into_response e = record {
  status = status_of e;
  headers = (codes "content-type", codes "text/plain; charset=utf-8") ∷ [];
  body = body_of e;
}

-- `Display` of an error of the storage crate; that of an `sqlx::Error` is a parameter.
unfoldable pub storage_message : (SqlxError → Text) → StorageError → Text
storage_message display StorageError.not_found = codes "not found"
storage_message display (StorageError.conflict m) = codes "conflict: " ++ m
storage_message display invalid_credentials = codes "invalid credentials"
storage_message display hashing = codes "password hashing failed"
storage_message display (migrate m) = m
storage_message display (database e) = display e
storage_message display (join_error m) = codes "task join error: " ++ m

-- `From<StorageError>`
unfoldable pub from_storage : (SqlxError → Text) → StorageError → AppError
unfolding storage_message
from_storage display StorageError.not_found = not_found
from_storage display (StorageError.conflict m) = conflict m
from_storage display invalid_credentials = unauthorized
from_storage display e = internal (storage_message display e)
