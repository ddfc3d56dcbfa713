-- ===== src/App/Router/Service.antt =====
-- `build_router` of crates/app/src/router.rs: the layers around the routes. The layers of the program
-- are its own functions; those of `tower_http` and `axum_login` are parameters. A request that takes
-- too long, which the layer of the timeout cuts off, and a panic are left out.
use todo_rust.Prelude.{List, Option, if◌then◌else◌, none, some}
use todo_rust.App.Http.{Response}
use todo_rust.App.Middleware.Cookies.{i18n_middleware}
use todo_rust.App.Middleware.HttpMetrics.{http_metrics_layer}
use todo_rust.App.Middleware.RateLimit.{IpAddr, RateLimiter, rate_limit_middleware}
use todo_rust.App.Middleware.Security.{
  Layers, apply_security_headers, apply_version_header, csp_nonce_middleware,
}
use todo_rust.App.Preview.Routes.{PreviewFiles}
use todo_rust.App.Router.{
  Method, Route, Target, delete_method, find_action, find_route, get_method, head_method,
  limited_pages, other_method, pages, post_method, probes, routes, static_files,
}
use todo_rust.App.Router.Pages.{Answer, Arrival, Extractors, Request, run_page, run_probe}
use todo_rust.App.Routes.Todos.Writes.{answer}
use todo_rust.App.State.{AppState}
use todo_rust.App.StaticFiles.{Files, static_service}
use todo_rust.App.World.{External, RequestContext, World, record_metrics}
use todo_rust.Metrics.{Metric}
use todo_rust.Observability.Stack.{run}
use todo_rust.Text.{Text, codes}

-- What the server keeps between requests, and the session of the one that it serves.
pub record Server (R S : Type 0) : Type 0 where
  pub world : World R S
  pub limiter : RateLimiter

abbrev pub Service : Type 0 → Type 0 → Type 0
Service R S = Request → Server R S → Response × Server R S

abbrev pub Layer : Type 0 → Type 0 → Type 0
Layer R S = Service R S → Service R S

-- The layers of the libraries; `auth` is `AuthManagerLayer`, which finds the session.
pub record TowerLayers (R S : Type 0) : Type 0 where
  pub auth : Layer R S
  pub timeout : Layer R S
  pub compression : Layer R S
  pub trace : Layer R S
  pub normalize_path : Layer R S
  pub sensitive_headers : Layer R S
  pub catch_panic : Layer R S
  pub set_request_id : Layer R S
  pub propagate_request_id : Layer R S

-- What the service of files and the pages find outside: the files, `ServeDir`, the renderer of the
-- metrics, and the commit that the program was built from.
pub record Outside : Type 0 where
  pub extractors : Extractors
  pub layers : Layers
  pub preview_files : PreviewFiles
  pub files : Files
  pub serve_dir : Text → Response
  pub render_metrics : List Metric → Text
  pub parse_ip : Text → Option IpAddr
  pub git_sha : Text

abbrev pub record_on_server : {R S : Type 0} → List Metric → Server R S → Server R S
record_on_server ms s = record s { world = record_metrics ms s.world }

-- The name of a method.
abbrev method_name : Method → Text
method_name get_method = codes "GET"
method_name head_method = codes "HEAD"
method_name post_method = codes "POST"
method_name delete_method = codes "DELETE"
method_name (other_method name) = name

-- The pattern that a path matched, for the metrics; a nested service has none.
abbrev pub matched_pattern : Option (Route × List Text) → Option Text
matched_pattern (some (r, captures)) = if r.nested then none else some r.pattern
matched_pattern none = none

module _ {R S : Type 0} (x : External R S) (out : Outside) (tower : TowerLayers R S)
    (state : AppState) where
  -- A service that leaves the limiter alone.
  unfoldable pub unlimited : Answer R S → Server R S → Response × Server R S
  unlimited answer s = let (r, w) = answer s.world in (r, record s { world = w })

  -- The layer of the limiter, around the login and the signup.
  unfoldable pub limited : Arrival → Request → Answer R S → Server R S → Response × Server R S
  limited arrival req answer s =
      let (r, limiter, w) =
        rate_limit_middleware x.http.to_str out.parse_ip arrival.started arrival.peer req.headers
          answer s.limiter s.world in
      (r, record { world = w; limiter = limiter })

  -- The handler of a method, or the answer that there is none.
  unfoldable pub run_method :
      {A : Type 0} → Request → List (Method × A) → (A → Answer R S) → Answer R S
  run_method req actions run w = elim (find_action out.extractors.routing req.method actions) [
    | some a ↦ (let (r, w') = run a w in (out.extractors.routing.sent req.method r, w'))
    | none ↦ (out.extractors.method_not_allowed, w)
  ]

  -- The layers of the pages: the session innermost, then the locale, then the nonce.
  unfoldable pub page_layers :
      Arrival → (Request → RequestContext → Server R S → Response × Server R S) → Service R S
  page_layers arrival inner req =
      csp_nonce_middleware out.layers x.http.from_str arrival.random (λ nonce.
        i18n_middleware x record_on_server req.headers (λ locale tz.
          tower.auth (λ req. inner req (record { locale = locale; tz = tz; csp_nonce = nonce }))
            req))

  unfoldable pub run_target : Arrival → Target → List Text → Service R S
  unfolding unlimited limited run_method page_layers
  run_target arrival (pages actions) captures = page_layers arrival (λ req ctx. unlimited (
      run_method req actions
        (run_page x out.extractors out.preview_files state arrival req ctx captures)))
  run_target arrival (limited_pages actions) captures = page_layers arrival (λ req ctx.
      limited arrival req (
        run_method req actions
          (run_page x out.extractors out.preview_files state arrival req ctx captures)))
  run_target arrival (probes actions) captures =
      λ req. unlimited (run_method req actions (run_probe out.render_metrics))
  run_target arrival static_files captures = λ req. unlimited (λ w. (
    static_service out.files state.assets x.http.to_str out.serve_dir
        (out.extractors.routing.below req.path) req.headers,
    w,
  ))

  -- What the path matches.
  unfoldable pub run_route : Arrival → Option (Route × List Text) → Service R S
  unfolding run_target
  run_route arrival (some (r, captures)) req = run_target arrival r.target captures req
  run_route arrival none req = unlimited (λ w. (out.extractors.unmatched, w))

  -- The layers of all routes, the first that is added innermost.
  unfoldable pub all_layers : Arrival → Option Text → Service R S → Service R S
  all_layers arrival matched inner =
      let counted : Service R S = λ req.
        http_metrics_layer record_on_server arrival.started arrival.finished
          (method_name req.method) matched req.path (inner req) in
      let cached : Service R S = λ req s.
        let (r, s') = counted req s in
        (out.layers.if_not_present (codes "cache-control") (codes "private, no-cache") r, s') in
      tower.propagate_request_id (
        tower.set_request_id (
          tower.catch_panic (
            tower.sensitive_headers
              (tower.normalize_path (tower.trace (tower.compression (tower.timeout cached)))))))

  -- The service that `build_router` makes; the path is matched before any layer.
  unfoldable pub serve : Arrival → Service R S
  unfolding run_route all_layers
  serve arrival req s =
      let found = find_route out.extractors.routing (routes state.debug) req.path in
      let (r, s') = all_layers arrival (matched_pattern found) (run_route arrival found) req s in
      (
        apply_version_header out.layers out.git_sha
            (apply_security_headers out.layers state.config.auth.cookie_secure r),
        s',
      )
