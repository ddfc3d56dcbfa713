-- ===== src/App/Router/Pages.antt =====
-- The handlers behind the routes of router.rs, with what axum extracts for each from the request.
use todo_rust.App.Routes.Auth
use todo_rust.App.Routes.Todos
use todo_rust.Prelude.{List, Option, ℕ}
use todo_rust.App.Error.{AppError, into_response}
use todo_rust.App.Http.{Headers, Response}
use todo_rust.App.Middleware.RateLimit.{IpAddr}
use todo_rust.App.Preview.Routes.{PreviewFiles, PreviewQuery, preview_index, preview_render}
use todo_rust.App.Router.{
  Method, Page, Probe, Routing, create_action, delete_action, dev_login_action, index_page,
  liveness_probe, locale_action, login_action, login_page, logout_action, metrics_probe,
  preview_index_page, preview_story_page, readiness_probe, signup_action, signup_page,
  todo_list_page, toggle_action,
}
use todo_rust.App.Routes.Health.{liveness, metrics_page, readiness}
use todo_rust.App.Routes.Pages.{index}
use todo_rust.App.Routes.Preferences.{update_locale}
use todo_rust.App.State.{AppState}
use todo_rust.App.World.{Ambient, External, Handler, RequestContext, World}
use todo_rust.Domain.{Credentials, NewTodo, NewUser, Time, Uuid}
use todo_rust.Metrics.{Metric}
use todo_rust.Prelude.Exec.{Result, err, ok}
use todo_rust.Text.{Text}

pub record Request : Type 0 where
  pub method : Method
  pub path : Text
  pub query : Text
  pub headers : Headers
  pub body : Text

-- What a request draws from outside, and the address that it comes from.
pub record Arrival : Type 0 where
  pub ambient : Ambient
  pub random : List ℕ
  pub started : Time
  pub finished : Time
  pub peer : Option IpAddr

-- The extractors of axum, each with the response of its rejection, and the responses for a path
-- and for a method without a handler.
pub record Extractors : Type 0 where
  pub credentials : Request → Result Response Credentials
  pub new_user : Request → Result Response NewUser
  pub new_todo : Request → Result Response NewTodo
  pub locale : Request → Result Response Text
  pub next : Request → Result Response (Option Text)
  pub preview_query : Request → Result Response PreviewQuery
  pub uuid : List Text → Result Response Uuid
  pub path_text : List Text → Result Response Text
  pub routing : Routing
  pub unmatched : Response
  pub method_not_allowed : Response

abbrev pub Answer : Type 0 → Type 0 → Type 0
Answer R S = World R S → Response × World R S

abbrev response_of : Result AppError Response → Response
response_of (ok r) = r
response_of (err e) = into_response e

module _ {R S : Type 0} where
  -- `IntoResponse` of what a handler returns.
  unfoldable pub answered : Handler R S Response → Answer R S
  answered handler w = let (r, w') = handler w in (response_of r, w')

  unfoldable pub extracted : {A : Type 0} → Result Response A → (A → Answer R S) → Answer R S
  extracted (ok a) k w = k a w
  extracted (err rejection) k w = (rejection, w)

  unfoldable pub run_probe : (List Metric → Text) → Probe → Answer R S
  run_probe render_metrics liveness_probe w = (liveness, w)
  run_probe render_metrics readiness_probe w =
      let (r, db) = readiness w.db in (r, record w { db = db })
  run_probe render_metrics metrics_probe w = (metrics_page render_metrics w.metrics, w)

module _ {R S : Type 0} (x : External R S) (ex : Extractors) (files : PreviewFiles) where
  unfoldable pub run_page :
      AppState → Arrival → Request → RequestContext → List Text → Page → Answer R S
  unfolding answered extracted
  run_page state arrival req ctx captures index_page = answered (index x state arrival.ambient ctx)
  run_page state arrival req ctx captures logout_action = answered (Auth.logout x req.headers)
  run_page state arrival req ctx captures todo_list_page =
      answered (Todos.list x state arrival.ambient ctx)
  run_page state arrival req ctx captures create_action =
      extracted (ex.new_todo req) (λ new. answered (Todos.create x state arrival.ambient ctx new))
  run_page state arrival req ctx captures toggle_action =
      extracted (ex.uuid captures)
        (λ id. answered (Todos.toggle x state arrival.ambient ctx (record { uuid = id })))
  run_page state arrival req ctx captures delete_action =
      extracted (ex.uuid captures)
        (λ id. answered (Todos.delete x state arrival.ambient (record { uuid = id })))
  run_page state arrival req ctx captures locale_action =
      extracted (ex.locale req)
        (λ locale. answered (update_locale x state arrival.ambient req.headers locale))
  run_page state arrival req ctx captures login_page =
      extracted (ex.next req) (λ next. answered (Auth.login_form x state next ctx))
  run_page state arrival req ctx captures login_action =
      extracted (ex.credentials req) (λ creds. answered (Auth.login x state req.headers ctx creds))
  run_page state arrival req ctx captures signup_page = answered (Auth.signup_form x ctx)
  run_page state arrival req ctx captures signup_action =
      extracted (ex.new_user req)
        (λ new. answered (Auth.signup x arrival.ambient req.headers ctx new))
  run_page state arrival req ctx captures dev_login_action = answered (Auth.auto_login x state)
  run_page state arrival req ctx captures preview_index_page =
      extracted (ex.preview_query req) (λ q. answered (preview_index x state files q ctx.csp_nonce))
  run_page state arrival req ctx captures preview_story_page =
      extracted (ex.path_text captures) (λ path.
        extracted (ex.preview_query req)
          (λ q. answered (preview_render x state files q ctx.csp_nonce path)))
