-- ===== src/App/Router/Invariants.antt =====
-- The service of crates/app/src/router.rs, and what every request keeps.
use todo_rust.Prelude.{Bool-cases, List, Option, Option-cases, arith, inl, inr, none, some}
use todo_rust.App.Changes.Invariants.{Change-Sound, Sound}
use todo_rust.App.Changes.Pages.{Changes, run_page-Changes}
use todo_rust.App.Middleware.RateLimit.{RateLimiter, check, client_ip, rate_limit_middleware}
use todo_rust.App.Middleware.RateLimit.Buckets.{Bounded, check-Bounded}
use todo_rust.App.Router.{
  Method, Page, Probe, Route, Target, find_action, find_route, limited_pages, liveness_probe,
  metrics_probe, pages, probes, readiness_probe, routes, static_files,
}
use todo_rust.App.Router.Pages.{Answer, Arrival, Request, run_page, run_probe}
use todo_rust.App.Router.Service.{
  Outside, Server, TowerLayers, limited, matched_pattern, run_method, run_route, run_target, serve,
  unlimited,
}
use todo_rust.App.Router.Transparency.{
  AreTransparent, Holds, Keeps, all_layers-Keeps, page_layers-Keeps,
}
use todo_rust.App.Routes.Health.{ping, readiness}
use todo_rust.App.State.{AppState}
use todo_rust.App.World.{External, RequestContext, World}
use todo_rust.Storage.{Tables, run_sql}
use todo_rust.Storage.UserRepo.{Accounts}
use todo_rust.Text.{Text}

-- The tables are sound, and every bucket holds at most the burst.
abbrev pub AllSound : Accounts → Tables → RateLimiter → Type 0
AllSound x t limiter = Sound x t × Bounded limiter

module _ {R S : Type 0} (x : External R S) (out : Outside) (tower : TowerLayers R S)
    (state : AppState) where
  -- What keeps the tables sound, behind any limiter.
  abbrev AnswerSound : Answer R S → Type 0
  AnswerSound handle =
      (w : World R S) → Sound x.accounts w.db.tables → Sound x.accounts (handle w).1.db.tables

  Changes-AnswerSound : (handle : Answer R S) → Changes x handle → AnswerSound handle
  unfolding Changes
  Changes-AnswerSound handle h w k =
      Change-Sound x.accounts w.auth.user w.db.tables (handle w).1.db.tables (h w) k

  run_method-AnswerSound :
      {A : Type 0} (req : Request) (actions : List (Method × A)) (handle : A → Answer R S)
      → ((a : A) → AnswerSound (handle a))
      → AnswerSound (run_method x out tower state req actions handle)
  run_method-AnswerSound req actions handle h w k =
      elim (Option-cases (find_action out.extractors.routing req.method actions)) [
        | inl e ↦ unfold run_method in ground (arith, k)
        | inr (a, e) ↦ unfold run_method in rw (run_method, e) (h a w k)
      ]

  unlimited-AllSound :
      (handle : Answer R S) (s : Server R S)
      → AnswerSound handle
      → Holds (AllSound x.accounts) s
      → Holds (AllSound x.accounts) (unlimited x out tower state handle s).1
  unfolding unlimited
  unlimited-AllSound handle s h (k, b) = (h s.world k, b)

  limited-AllSound :
      (arrival : Arrival) (req : Request) (handle : Answer R S) (s : Server R S)
      → AnswerSound handle
      → Holds (AllSound x.accounts) s
      → Holds (AllSound x.accounts) (limited x out tower state arrival req handle s).1
  limited-AllSound arrival req handle s h (k, b) =
      let to_str = x.http.to_str in
      let ip = client_ip to_str out.parse_ip s.limiter arrival.peer req.headers in
      let inner = h s.world k in
      let bounded = check-Bounded s.limiter ip arrival.started b in
      elim (Bool-cases s.limiter.enabled) [
        | inr off ↦ unfold limited rate_limit_middleware in ground (arith, off, inner, b)
        | inl on ↦ elim (Bool-cases (check s.limiter ip arrival.started).1) [
          | inr no' ↦ unfold limited rate_limit_middleware in ground (arith, on, no', k, bounded)
          | inl yes' ↦
              unfold limited rate_limit_middleware in ground (arith, on, yes', inner, bounded)
        ]
      ]

  run_page-AnswerSound :
      (arrival : Arrival) (req : Request) (ctx : RequestContext) (captures : List Text)
      (page : Page)
      → AnswerSound
          (run_page x out.extractors out.preview_files state arrival req ctx captures page)
  run_page-AnswerSound arrival req ctx captures page =
      Changes-AnswerSound
        (run_page x out.extractors out.preview_files state arrival req ctx captures page)
        (run_page-Changes x out.extractors out.preview_files state arrival req ctx captures page)

  run_probe-AnswerSound : (probe : Probe) → AnswerSound (run_probe out.render_metrics probe)
  unfolding run_probe readiness ping run_sql
  run_probe-AnswerSound liveness_probe w k = k
  run_probe-AnswerSound readiness_probe w k = unfold readiness ping run_sql in ground (arith, k)
  run_probe-AnswerSound metrics_probe w k = k

  unlimited-Keeps :
      (handle : Request → Answer R S)
      → ((req : Request) → AnswerSound (handle req))
      → Keeps (AllSound x.accounts) (λ req. unlimited x out tower state (handle req))
  unfolding Keeps
  unlimited-Keeps handle h req s k = unlimited-AllSound (handle req) s (h req) k

  limited-Keeps :
      (arrival : Arrival) (handle : Request → Answer R S)
      → ((req : Request) → AnswerSound (handle req))
      → Keeps (AllSound x.accounts) (λ req. limited x out tower state arrival req (handle req))
  unfolding Keeps
  limited-Keeps arrival handle h req s k = limited-AllSound arrival req (handle req) s (h req) k

  -- The handlers of a route, by the method.
  abbrev by_method :
      Arrival → List (Method × Page) → List Text → Request → RequestContext → Answer R S
  by_method arrival actions captures req ctx =
      run_method x out tower state req actions
        (run_page x out.extractors out.preview_files state arrival req ctx captures)

  by_method-AnswerSound :
      (arrival : Arrival) (actions : List (Method × Page)) (captures : List Text)
      (ctx : RequestContext) (req : Request)
      → AnswerSound (by_method arrival actions captures req ctx)
  by_method-AnswerSound arrival actions captures ctx req =
      run_method-AnswerSound req actions
        (run_page x out.extractors out.preview_files state arrival req ctx captures)
        (λ page. run_page-AnswerSound arrival req ctx captures page)

  run_target-Keeps :
      (transparent : AreTransparent tower) (arrival : Arrival) (target : Target)
      (captures : List Text)
      → Keeps (AllSound x.accounts) (run_target x out tower state arrival target captures)
  unfolding run_target
  run_target-Keeps transparent arrival (pages actions) captures =
      page_layers-Keeps x out tower state (AllSound x.accounts) transparent arrival
        (λ req ctx. unlimited x out tower state (by_method arrival actions captures req ctx))
        (λ ctx.
          unlimited-Keeps (λ req. by_method arrival actions captures req ctx)
            (by_method-AnswerSound arrival actions captures ctx))
  run_target-Keeps transparent arrival (limited_pages actions) captures =
      page_layers-Keeps x out tower state (AllSound x.accounts) transparent arrival
        (λ req ctx.
          limited x out tower state arrival req (by_method arrival actions captures req ctx))
        (λ ctx.
          limited-Keeps arrival (λ req. by_method arrival actions captures req ctx)
            (by_method-AnswerSound arrival actions captures ctx))
  run_target-Keeps transparent arrival (probes actions) captures =
      unlimited-Keeps
        (λ req. run_method x out tower state req actions (run_probe out.render_metrics))
        (λ req.
          run_method-AnswerSound req actions (run_probe out.render_metrics) run_probe-AnswerSound)
  run_target-Keeps transparent arrival static_files captures = unlimited-Keeps _ (λ req w k. k)

  run_route-Keeps :
      (transparent : AreTransparent tower) (arrival : Arrival) (found : Option (Route × List Text))
      → Keeps (AllSound x.accounts) (run_route x out tower state arrival found)
  unfolding run_route Keeps
  run_route-Keeps transparent arrival (some (r, captures)) req s k =
      run_target-Keeps transparent arrival r.target captures req s k
  run_route-Keeps transparent arrival none req s k =
      unlimited-Keeps (λ req w. (out.extractors.unmatched, w)) (λ req w k. k) req s k

  -- Where the layers of the libraries touch the tables and the limiter by the service inside them
  -- only, every request leaves them sound: the identifiers of the todos distinct, their titles of 1
  -- to 280 characters, their owners users, the addresses of the accounts distinct, and in each
  -- bucket of the limiter at most the burst.
  pub serve-AllSound :
      (transparent : AreTransparent tower) (arrival : Arrival) (req : Request) (s : Server R S)
      → AllSound x.accounts s.world.db.tables s.limiter
      → AllSound x.accounts
          (serve x out tower state arrival req s).1.world.db.tables
          (serve x out tower state arrival req s).1.limiter
  unfolding serve Keeps
  serve-AllSound transparent arrival req s k =
      let found = find_route out.extractors.routing (routes state.debug) req.path in
      all_layers-Keeps x out tower state (AllSound x.accounts) transparent arrival
        (matched_pattern found) (run_route x out tower state arrival found)
        (run_route-Keeps transparent arrival found) req s k
