-- ===== src/App/Http.antt =====
-- Requests and responses as the handlers see them (`axum`, `http`). Header names are in lower case,
-- as the `http` crate keeps them.
use todo_rust.Prelude.{List, Option, [], if◌then◌else◌, none, some, ℕ, ◌++◌, ◌∷◌}
use todo_rust.Text.{Text, codes, text_eq}

abbrev pub Headers : Type 0
Headers = List (Text × Text)

pub record Response : Type 0 where
  pub status : ℕ
  pub headers : Headers
  pub body : Text

-- `headers.get(name)`: the first value.
unfoldable pub get_header : Text → Headers → Option Text
get_header name [] = none
get_header name ((k, v) ∷ headers) =
    let rest = get_header name headers in if text_eq k name then some v else rest

unfoldable pub remove_header : Text → Headers → Headers
remove_header name [] = []
remove_header name ((k, v) ∷ headers) =
    let rest = remove_header name headers in if text_eq k name then rest else (k, v) ∷ rest

-- `headers.insert(name, value)`: it takes the place of every value of that name.
unfoldable pub insert_header : Text → Text → Headers → Headers
unfolding remove_header
insert_header name value headers = (name, value) ∷ remove_header name headers

-- `Html(body).into_response()`, with a status and more headers.
abbrev pub html_response : ℕ → Headers → Text → Response
html_response status headers body = record {
  status = status;
  headers = headers ++ (codes "content-type", codes "text/html; charset=utf-8") ∷ [];
  body = body;
}

abbrev pub empty_response : ℕ → Response
empty_response status = record { status = status; headers = []; body = [] }

-- The functions of the `http` and `axum` crates that the handlers use: whether a header value is
-- visible ASCII, whether a text can be one, and `Redirect::to(target).into_response()`.
pub record HttpTools : Type 0 where
  pub to_str : Text → Option Text
  pub from_str : Text → Option Text
  pub redirect_to : Text → Response
