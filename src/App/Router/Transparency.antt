-- ===== src/App/Router/Transparency.antt =====
-- Properties of the tables and of the limiter that the layers of crates/app/src/router.rs keep.
use todo_rust.Prelude.{List, Option, ℕ}
use todo_rust.App.Http.{Headers, Response}
use todo_rust.App.Middleware.Cookies.{i18n_middleware, read_cookies, request_tz}
use todo_rust.App.Middleware.HttpMetrics.{http_metrics_layer}
use todo_rust.App.Middleware.RateLimit.{RateLimiter}
use todo_rust.App.Middleware.Security.{csp_nonce_middleware}
use todo_rust.App.Router.Pages.{Arrival, Request}
use todo_rust.App.Router.Service.{
  Layer, Outside, Server, Service, TowerLayers, all_layers, page_layers, record_on_server,
}
use todo_rust.App.State.{AppState}
use todo_rust.App.World.{External, RequestContext}
use todo_rust.I18n.Locale.{LanguageIdentifier}
use todo_rust.I18n.Tz.{Tz}
use todo_rust.Metrics.{Metric}
use todo_rust.Storage.{Tables}
use todo_rust.Text.{Text}

-- A property of the tables and of the limiter of a server.
abbrev pub Holds : {R S : Type 0} → (Tables → RateLimiter → Type 0) → Server R S → Type 0
Holds Q s = Q s.world.db.tables s.limiter

-- A service keeps a property if it holds after every request that it serves where it holds.
unfoldable pub Keeps : {R S : Type 0} → (Tables → RateLimiter → Type 0) → Service R S → Type 0
Keeps {R} {S} Q service = (req : Request) (s : Server R S) → Holds Q s → Holds Q (service req s).1

-- A layer that touches the tables and the limiter by the service inside it only.
pub record IsTransparent {R S : Type 0} (layer : Layer R S) : Type 1 where
  pub keeps :
      (Q : Tables → RateLimiter → Type 0) (inner : Service R S)
      → Keeps Q inner
      → Keeps Q (layer inner)

-- The layers of the libraries are such.
pub record AreTransparent {R S : Type 0} (tower : TowerLayers R S) : Type 1 where
  pub auth : IsTransparent tower.auth
  pub timeout : IsTransparent tower.timeout
  pub compression : IsTransparent tower.compression
  pub trace : IsTransparent tower.trace
  pub normalize_path : IsTransparent tower.normalize_path
  pub sensitive_headers : IsTransparent tower.sensitive_headers
  pub catch_panic : IsTransparent tower.catch_panic
  pub set_request_id : IsTransparent tower.set_request_id
  pub propagate_request_id : IsTransparent tower.propagate_request_id

module _ {R S : Type 0} (x : External R S) (out : Outside) (tower : TowerLayers R S)
    (state : AppState) (Q : Tables → RateLimiter → Type 0) where
  -- Whatever the nonce, the locale and the time zone are.
  csp_nonce_middleware_keeps :
      (P : Server R S → Type 0) (random : List ℕ) (next : Text → Server R S → Response × Server R S)
      → ((nonce : Text) (s : Server R S) → P s → P (next nonce s).1)
      → (s : Server R S) → P s
      → P (csp_nonce_middleware out.layers x.http.from_str random next s).1
  unfolding csp_nonce_middleware
  csp_nonce_middleware_keeps P random next h s k = h (out.layers.encode_url_safe random) s k

  i18n_middleware_keeps :
      (P : Server R S → Type 0) (headers : Headers)
      (next : LanguageIdentifier → Tz → Server R S → Response × Server R S)
      → ((ms : List Metric) (s : Server R S) → P s → P (record_on_server ms s))
      → ((locale : LanguageIdentifier) (tz : Tz) (s : Server R S) → P s → P (next locale tz s).1)
      → (s : Server R S) → P s
      → P (i18n_middleware x record_on_server headers next s).1
  unfolding i18n_middleware
  i18n_middleware_keeps P headers next counted h s k =
      let (locale_str, tz_str) = read_cookies x.http.to_str headers in
      let (tz, ms) = request_tz x.zones tz_str in h _ tz _ (counted _ s k)

  pub page_layers-Keeps :
      (transparent : AreTransparent tower) (arrival : Arrival)
      (inner : Request → RequestContext → Server R S → Response × Server R S)
      → ((ctx : RequestContext) → Keeps Q (λ req. inner req ctx))
      → Keeps Q (page_layers x out tower state arrival inner)
  unfolding Keeps page_layers
  page_layers-Keeps transparent arrival inner h req =
      csp_nonce_middleware_keeps (Holds Q) arrival.random _ (λ nonce.
        i18n_middleware_keeps (Holds Q) req.headers _ (λ ms s k. k)
          (λ locale tz s k.
            transparent.auth.keeps Q
              (λ req. inner req (record { locale = locale; tz = tz; csp_nonce = nonce }))
              (h (record { locale = locale; tz = tz; csp_nonce = nonce })) req s k))

  pub all_layers-Keeps :
      (transparent : AreTransparent tower) (arrival : Arrival) (matched : Option Text)
      (inner : Service R S)
      → Keeps Q inner
      → Keeps Q (all_layers x out tower state arrival matched inner)
  unfolding all_layers Keeps http_metrics_layer
  all_layers-Keeps transparent arrival matched inner h =
      transparent.propagate_request_id.keeps Q _ (
        transparent.set_request_id.keeps Q _ (
          transparent.catch_panic.keeps Q _ (
            transparent.sensitive_headers.keeps Q _ (
              transparent.normalize_path.keeps Q _ (
                transparent.trace.keeps Q _ (
                  transparent.compression.keeps Q _
                    (transparent.timeout.keeps Q _ (λ req s k. h req s k))))))))
