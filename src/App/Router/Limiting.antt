-- ===== src/App/Router/Limiting.antt =====
-- What the limiter guards, and what it keeps from running (crates/app/src/router.rs).
use todo_rust.Prelude.{
  Bool, List, Option, Option-cases, [], all, arith, false, if◌then◌else◌, inl, inr, none, not, refl,
  some, true, ◌||◌, ◌∷◌, ◌≡◌,
}
use todo_rust.App.Http.{Headers}
use todo_rust.App.Middleware.RateLimit.{RateLimiter, check, client_ip}
use todo_rust.App.Router.{
  Route, Routing, Target, find_route, limited_pages, nest, pages, probes, routes, static_files,
}
use todo_rust.App.Router.Pages.{Answer, Arrival, Request, run_page, run_probe}
use todo_rust.App.Router.Service.{
  Outside, Server, TowerLayers, matched_pattern, run_method, run_route, run_target, serve,
  unlimited,
}
use todo_rust.App.Router.Transparency.{AreTransparent, Keeps, all_layers-Keeps, page_layers-Keeps}
use todo_rust.App.State.{AppState}
use todo_rust.App.World.{External}
use todo_rust.Storage.{Tables}
use todo_rust.Text.{Text, codes, text_eq}

-- Whether a pattern is one of the two where passwords are sent.
abbrev pub takes_passwords : Text → Bool
takes_passwords pattern = text_eq pattern (codes "/login") || text_eq pattern (codes "/signup")

-- Whether a found route takes passwords.
abbrev pub is_guarded : Option (Route × List Text) → Bool
is_guarded (some (r, captures)) = takes_passwords r.pattern
is_guarded none = false

-- Whether the handlers of a route stand behind the limiter.
abbrev limits : Target → Bool
limits (limited_pages actions) = true
limits _ = false

module _ (axum : Routing) where
  all-find_route :
      (p : Route → Bool) (rs : List Route) (path : Text) (r : Route) (captures : List Text)
      → all p rs ≡ true
      → find_route axum rs path ≡ some (r, captures)
      → p r ≡ true
  unfolding find_route
  all-find_route p [] path r captures h e = absurd (ground (arith, e))
  all-find_route p (q ∷ rs) path r captures h e =
      elim (Option-cases (axum.matches q.nested q.pattern path)) [
        | inr (found, k) ↦ ground (arith, h, e, k)
        | inl k ↦ all-find_route p rs path r captures (ground (arith, h)) (ground (arith, e, k))
      ]

abbrev agrees : Route → Bool
agrees r = if takes_passwords r.pattern then limits r.target else not (limits r.target)

-- The routes behind the limiter are those of the two patterns.
routes-agree : (debug : Bool) → all agrees (routes debug) ≡ true
unfolding routes nest text_eq
routes-agree true = refl
routes-agree false = refl

module _ {R S : Type 0} (x : External R S) (out : Outside) (tower : TowerLayers R S)
    (state : AppState) where
  -- The limiter is as it was.
  abbrev Untouched : RateLimiter → Tables → RateLimiter → Type 0
  Untouched before t limiter = limiter ≡ before

  unlimited-Untouched :
      (before : RateLimiter) (handle : Request → Answer R S)
      → Keeps (Untouched before) (λ req. unlimited x out tower state (handle req))
  unfolding Keeps unlimited
  unlimited-Untouched before handle req s k = k

  run_target-Untouched :
      (transparent : AreTransparent tower) (before : RateLimiter) (arrival : Arrival)
      (target : Target) (captures : List Text)
      → limits target ≡ false
      → Keeps (Untouched before) (run_target x out tower state arrival target captures)
  unfolding run_target
  run_target-Untouched transparent before arrival (pages actions) captures h =
      page_layers-Keeps x out tower state (Untouched before) transparent arrival
        (λ req ctx. unlimited x out tower state (
          run_method x out tower state req actions
            (run_page x out.extractors out.preview_files state arrival req ctx captures)))
        (λ ctx. unlimited-Untouched before (λ req.
          run_method x out tower state req actions
            (run_page x out.extractors out.preview_files state arrival req ctx captures)))
  run_target-Untouched transparent before arrival (limited_pages actions) captures h =
      absurd (ground (arith, h))
  run_target-Untouched transparent before arrival (probes actions) captures h =
      unlimited-Untouched before
        (λ req. run_method x out tower state req actions (run_probe out.render_metrics))
  run_target-Untouched transparent before arrival static_files captures h =
      unlimited-Untouched before _

  run_route-Untouched :
      (transparent : AreTransparent tower) (before : RateLimiter) (arrival : Arrival) (path : Text)
      → is_guarded (find_route out.extractors.routing (routes state.debug) path) ≡ false
      → Keeps (Untouched before) (
          run_route x out tower state arrival
            (find_route out.extractors.routing (routes state.debug) path))
  run_route-Untouched transparent before arrival path h =
      let axum = out.extractors.routing in
      elim (Option-cases (find_route axum (routes state.debug) path)) [
        | inl e ↦ rw e (
            unfold run_route Keeps in
            λ req s k. unlimited-Untouched before (λ req w. (out.extractors.unmatched, w)) req s k)
        | inr ((r, captures), e) ↦
            let agree =
              all-find_route axum agrees (routes state.debug) path r captures
                (routes-agree state.debug) e in
            let free : limits r.target ≡ false = ground (arith, h, e, agree) in
            rw e (
              unfold run_route Keeps in
              λ req s k.
                run_target-Untouched transparent before arrival r.target captures free req s k)
      ]

  -- Where the layers of the libraries touch the tables and the limiter by the service inside them
  -- only, a request whose path is neither that of the login nor that of the signup leaves every
  -- bucket as it is.
  pub serve-limiter :
      (transparent : AreTransparent tower) (arrival : Arrival) (req : Request) (s : Server R S)
      → is_guarded (find_route out.extractors.routing (routes state.debug) req.path) ≡ false
      → (serve x out tower state arrival req s).1.limiter ≡ s.limiter
  unfolding serve Keeps
  serve-limiter transparent arrival req s h =
      let found = find_route out.extractors.routing (routes state.debug) req.path in
      all_layers-Keeps x out tower state (Untouched s.limiter) transparent arrival
        (matched_pattern found) (run_route x out tower state arrival found)
        (run_route-Untouched transparent s.limiter arrival req.path h) req s refl

  -- The tables are as they were, and the limiter, which is on, refuses the request whatever its
  -- headers are.
  abbrev Refused : Arrival → Tables → Tables → RateLimiter → Type 0
  Refused arrival before t limiter =
      (t ≡ before)
      × (limiter.enabled ≡ true)
      × ((headers : Headers)
          → (check limiter (client_ip x.http.to_str out.parse_ip limiter arrival.peer headers)
              arrival.started).1
            ≡ false)
