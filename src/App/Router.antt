-- ===== src/App/Router.antt =====
-- crates/app/src/router.rs: the routes. axum finds the route of the path first, then the handler of
-- the method; layers act behind that. Whether a path matches a pattern and whether a handler serves
-- a method is for axum to say: parameters.
pub mod Pages
pub mod Service
pub mod UniqueRoutes
pub mod Transparency
pub mod Invariants
pub mod Limiting
pub mod Reachable
use todo_rust.Prelude.{
  Bool, List, Option, String, [], false, if◌then◌else◌, map, none, some, true, ◌++◌, ◌∷◌,
}
use todo_rust.App.Http.{Response}
use todo_rust.Text.{Text, codes, text_eq}

pub data Method : Type 0 where
  get_method head_method post_method delete_method : Method
  other_method : Text → Method

-- The handlers behind the layers of the pages.
pub data Page : Type 0 where
  index_page logout_action todo_list_page create_action toggle_action delete_action : Page
  locale_action login_page login_action signup_page signup_action dev_login_action : Page
  preview_index_page preview_story_page : Page

-- Those of health.rs.
pub data Probe : Type 0 where
  liveness_probe readiness_probe metrics_probe : Probe

-- What stands at a pattern: handlers by their methods, in one of the groups that share layers, or
-- the static service.
pub data Target : Type 0 where
  pages limited_pages : List (Method × Page) → Target
  probes : List (Method × Probe) → Target
  static_files : Target

pub record Route : Type 0 where
  pub pattern : Text
  -- Whether the pattern is the prefix of a nested service.
  pub nested : Bool
  pub target : Target

abbrev at : String → Target → Route
at pattern target = record { pattern = codes pattern; nested = false; target = target }

abbrev on_get : {A : Type 0} → A → Method × A
on_get a = (get_method, a)

abbrev on_post : {A : Type 0} → A → Method × A
on_post a = (post_method, a)

unfoldable pub auth_endpoints : List Route
auth_endpoints =
    at "/login" (limited_pages (on_get login_page ∷ on_post login_action ∷ []))
    ∷ at "/signup" (limited_pages (on_get signup_page ∷ on_post signup_action ∷ []))
    ∷ []

unfoldable pub api_routes : List Route
api_routes =
    at "/" (pages (on_get index_page ∷ []))
    ∷ at "/logout" (pages (on_post logout_action ∷ []))
    ∷ at "/todos" (pages (on_get todo_list_page ∷ on_post create_action ∷ []))
    ∷ at "/todos/:id/toggle" (pages (on_post toggle_action ∷ []))
    ∷ at "/todos/:id" (pages ((delete_method, delete_action) ∷ []))
    ∷ at "/preferences/locale" (pages (on_post locale_action ∷ []))
    ∷ []

-- `router` of preview/routes.rs
unfoldable pub preview_routes : List Route
preview_routes =
    at "/" (pages (on_get preview_index_page ∷ []))
    ∷ at "/render/*path" (pages (on_get preview_story_page ∷ []))
    ∷ []

-- `nest`: the patterns behind the prefix, where "/" is the prefix itself.
unfoldable pub nest : Text → List Route → List Route
nest prefix rs =
    map
      (λ (r : Route). record r {
        pattern = prefix ++ (if text_eq r.pattern (codes "/") then [] else r.pattern);
      })
      rs

-- `#[cfg(debug_assertions)]`
unfoldable pub debug_routes : List Route
unfolding preview_routes nest
debug_routes =
    at "/dev/login" (pages (on_post dev_login_action ∷ []))
    ∷ nest (codes "/__preview") preview_routes

unfoldable pub health_routes : List Route
health_routes =
    at "/healthz" (probes (on_get liveness_probe ∷ []))
    ∷ at "/readyz" (probes (on_get readiness_probe ∷ []))
    ∷ at "/metrics" (probes (on_get metrics_probe ∷ []))
    ∷ []

-- `nest_service`
unfoldable pub static_routes : List Route
static_routes = record { pattern = codes "/static"; nested = true; target = static_files } ∷ []

unfoldable pub routes : Bool → List Route
unfolding auth_endpoints api_routes debug_routes health_routes static_routes
routes debug =
    api_routes
    ++ (auth_endpoints
        ++ ((if debug then debug_routes else []) ++ (health_routes ++ static_routes)))

-- What axum says of a pattern and a path (the captures, if they match; the flag tells a prefix from
-- a whole pattern), of the method of a handler and that of a request, of what a request for a method
-- is sent of the handler's answer, and of the path that a nested service is given.
pub record Routing : Type 0 where
  pub matches : Bool → Text → Text → Option (List Text)
  pub serves : Method → Method → Bool
  pub sent : Method → Response → Response
  pub below : Text → Text

module _ (axum : Routing) where
  unfoldable pub find_route : List Route → Text → Option (Route × List Text)
  find_route [] path = none
  find_route (r ∷ rs) path = elim (axum.matches r.nested r.pattern path) [
    | some captures ↦ some (r, captures)
    | none ↦ find_route rs path
  ]

  unfoldable pub find_action : {A : Type 0} → Method → List (Method × A) → Option A
  find_action asked [] = none
  find_action asked ((declared, a) ∷ actions) =
      let rest = find_action asked actions in if axum.serves declared asked then some a else rest
