-- ===== src/App/Start/Checks.antt =====
-- What holds once the start has succeeded (crates/app/src/main.rs).
use todo_rust.Prelude.{Bool, ap, arith, inl, inr, length, subst, sym, true, ◌∙◌, ◌≡◌, ◌≤◌}
use todo_rust.App.Config.{Config, decoded_session_key, socket_addr}
use todo_rust.App.Config.Checks.{Checked, decoded_session_key-bounds, from_env_sound}
use todo_rust.App.Config.Loading.{from_env}
use todo_rust.App.Start.{SessionLayer, login_limiter, session_layer, start_assets, start_cache}
use todo_rust.App.Start.Main.{
  Machine, Running, StartError, StartTools, build_pool, build_redis_pool, dev_user, given, listen,
  open_server, open_state, open_storage, read_environment, run_migrations, run_session_migrations,
  start, trace_logs,
}
use todo_rust.App.State.{AppState}
use todo_rust.App.World.{Ambient}
use todo_rust.I18n.Messages.{Locales}
use todo_rust.Observability.{ObservabilityGuard, install_metrics_recorder}
use todo_rust.Prelude.Exec.{Result, Result-cases, err, ok}
use todo_rust.Text.{Text}

-- Both sets of migrations have run.
abbrev pub Migrated : Machine → Type 0
Migrated m = (m.migrated ≡ true) × (m.sessions_migrated ≡ true)

-- The key that signs the cookies is long enough, scripts cannot read them, and they are sent with
-- requests from elsewhere only where a user follows a link.
pub record Protected (r : Running) : Type 0 where
  pub long_key : 64 ≤ length r.session.signing_key
  pub http_only : r.session.http_only ≡ true
  pub same_site : r.session.same_site_lax ≡ true
  pub secure : r.session.secure ≡ r.config.auth.cookie_secure

given-eq-ok :
    {E A : Type 0} (f : E → StartError) (r : Result E A) (m m' : Machine) (a : A)
    → given f r m ≡ (ok a, m')
    → (r ≡ ok a) × (m ≡ m')
given-eq-ok f (ok b) m m' a h = (ground (arith, h), ground (arith, h))
given-eq-ok f (err e) m m' a h = absurd (ground (arith, h))

module _ {H : Type 0} (x : StartTools H) where
  open_storage-Migrated :
      (cfg : Config) (m m' : Machine) → open_storage x cfg m ≡ (ok tt, m') → Migrated m'
  unfolding open_storage run_migrations run_session_migrations
  open_storage-Migrated cfg m m' h = elim (Result-cases (build_pool x cfg.database)) [
    | inr (e, k) ↦ absurd (ground (arith, h, k))
    | inl (u, k) ↦ elim (Result-cases x.migrate) [
      | inr (e, j) ↦ absurd (ground (arith, h, k, j))
      | inl (v, j) ↦ elim (Result-cases x.migrate_sessions) [
        | inr (e, i) ↦ absurd (ground (arith, h, k, j, i))
        | inl (w, i) ↦ ground (arith, h, k, j, i)
      ]
    ]
  ]

  dev_user_keeps :
      (debug : Bool) (cfg : Config) (ambient : Ambient) (password : Text) (m : Machine)
      → Migrated m
      → Migrated (dev_user x debug cfg ambient password m).1
  unfolding dev_user
  dev_user_keeps debug cfg ambient password m h = ground (arith, h)

  listen_keeps : (addr : Text) (m : Machine) → (listen x addr m).1 ≡ m
  unfolding listen
  listen_keeps addr m = ground arith

  session_layer-Protected :
      (cfg : Config) (session : SessionLayer)
      → session_layer x.config cfg ≡ ok session
      → (64 ≤ length session.signing_key)
        × (session.http_only ≡ true)
        × (session.same_site_lax ≡ true)
        × (session.secure ≡ cfg.auth.cookie_secure)
  session_layer-Protected cfg session h =
      elim (Result-cases (decoded_session_key x.config cfg.auth)) [
        | inr (e, k) ↦ absurd (unfold session_layer in ground (arith, h, k))
        | inl (key, k) ↦
            let long = decoded_session_key-bounds x.config cfg.auth key k in
            unfold session_layer in ground (arith, h, k, long)
      ]

  open_server_sound :
      (cfg : Config) (guard : ObservabilityGuard) (state : AppState) (locales : Locales)
      (m m' : Machine) (r : Running)
      → open_server x cfg guard state locales m ≡ (ok r, m')
      → (m ≡ m') × (r.config ≡ cfg) × Protected r
  open_server_sound cfg guard state locales m m' r h =
      elim (Result-cases (session_layer x.config cfg)) [
        | inr (e, k) ↦ absurd (unfold open_server in ground (arith, h, k))
        | inl (session, k) ↦ elim (Result-cases (socket_addr x.config cfg.server)) [
          | inr (e, j) ↦ absurd (unfold open_server in ground (arith, h, k, j))
          | inl (addr, j) ↦ elim (Result-cases (listen x addr m).0) [
            | inr (e, i) ↦ absurd (unfold open_server in ground (arith, h, k, j, i))
            | inl (listener, i) ↦
                let done : Running = record {
                  config = cfg;
                  guard = guard;
                  state = state;
                  locales = locales;
                  limiter = login_limiter cfg;
                  session = session;
                  listener = listener;
                } in
                let kept = listen_keeps addr m in
                let made : open_server x cfg guard state locales m ≡ (ok done, m) =
                  unfold open_server in ground (arith, k, j, i, kept) in
                let same : done ≡ r = ground (arith, made, h) in
                let (long, http, lax, secure) = session_layer-Protected cfg session k in
                (
                  ground (arith, made, h),
                  ap (λ (r : Running). r.config) (sym same),
                  subst Protected same (record {
                    long_key = long;
                    http_only = http;
                    same_site = lax;
                    secure = secure;
                  }),
                )
          ]
        ]
      ]

  open_state_sound :
      (debug : Bool) (ambient : Ambient) (password : Text) (cfg : Config)
      (guard : ObservabilityGuard) (m m' : Machine) (r : Running)
      → open_state x debug ambient password cfg guard m ≡ (ok r, m')
      → Migrated m
      → (r.config ≡ cfg) × Migrated m' × Protected r
  open_state_sound debug ambient password cfg guard m m' r h ready =
      elim (Result-cases (x.load_locales cfg.locales_dir)) [
        | inr (e, k) ↦ absurd (unfold open_state in ground (arith, h, k))
        | inl (locales, k) ↦
            elim (Result-cases (start_assets x.hasher cfg (x.static_node cfg.static_dir))) [
              | inr (e, j) ↦ absurd (unfold open_state in ground (arith, h, k, j))
              | inl (assets, j) ↦
                  let seeded' = dev_user x debug cfg ambient password m in
                  elim (Result-cases seeded'.0) [
                    | inr (e, i) ↦ absurd (unfold open_state in ground (arith, h, k, j, i))
                    | inl (u, i) ↦
                        let state : AppState = record {
                          config = cfg;
                          cache = start_cache (build_redis_pool x) cfg;
                          assets = assets;
                          debug = debug;
                        } in
                        let rest : open_state x debug ambient password cfg guard m
                            ≡ open_server x cfg guard state locales seeded'.1 =
                          unfold open_state in ground (arith, k, j, i) in
                        let (same, cfg', kept) =
                          open_server_sound cfg guard state locales seeded'.1 m' r (sym rest ∙ h) in
                        (
                          cfg',
                          subst Migrated same (dev_user_keeps debug cfg ambient password m ready),
                          kept,
                        )
                  ]
            ]
      ]

  -- Where the start succeeds, in whatever way its libraries answer: the configuration is one that
  -- `from_env` accepts, both sets of migrations have run, and the cookies of the sessions are
  -- signed with at least 64 bytes, hidden from scripts and, if the configuration says so, secure.
  pub start_sound :
      (debug : Bool) (ambient : Ambient) (password : Text) (m m' : Machine) (r : Running)
      → start x debug ambient password m ≡ (ok r, m')
      → Checked x.config r.config × Migrated m' × Protected r
  start_sound debug ambient password m m' r h = elim (Result-cases (from_env x.config m.env).0) [
    | inr (e, k) ↦ absurd (unfold start read_environment in ground (arith, h, k))
    | inl (cfg, k) ↦
        let read' = record m { env = (from_env x.config m.env).1 } in
        let logs = trace_logs x cfg.observability in
        elim (Result-cases logs) [
          | inr (e, j) ↦ absurd (unfold start read_environment in ground (arith, h, k, j))
          | inl (guard, j) ↦
              elim (Result-cases (install_metrics_recorder x.set_buckets x.install_recorder)) [
                | inr (e, i) ↦ absurd (unfold start read_environment in ground (arith, h, k, j, i))
                | inl (u, i) ↦ elim (Result-cases (open_storage x cfg read').0) [
                  | inr (e, l) ↦
                      absurd (unfold start read_environment in ground (arith, h, k, j, i, l))
                  | inl (v, l) ↦
                      let opened = (open_storage x cfg read').1 in
                      let rest : start x debug ambient password m
                          ≡ open_state x debug ambient password cfg guard opened =
                        unfold start read_environment in ground (arith, k, j, i, l) in
                      let ready = open_storage-Migrated cfg read' opened (ground (arith, l)) in
                      let (same, migrated, kept) =
                        open_state_sound debug ambient password cfg guard opened m' r (sym rest ∙ h)
                          ready in
                      (rw same (from_env_sound x.config m.env cfg k), migrated, kept)
                ]
              ]
        ]
  ]
