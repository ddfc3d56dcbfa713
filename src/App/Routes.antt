-- ===== src/App/Routes.antt =====
-- crates/app/src/routes: the handlers. Each is an action on the world that answers or fails.
pub mod Auth
pub mod Todos
pub mod Pages
pub mod Preferences
pub mod Health
use todo_rust.Prelude.{Bool, is_some}
use todo_rust.App.Http.{Headers, get_header}
use todo_rust.Text.{codes}

-- `headers.get("HX-Request").is_some()`
unfoldable pub is_htmx : Headers → Bool
is_htmx headers = is_some (get_header (codes "hx-request") headers)
