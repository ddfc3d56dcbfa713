-- ===== src/App/Start/Main.antt =====
-- `main` of crates/app/src/main.rs up to the socket, step by step, with what each step may fail at;
-- crates/storage/src/pool.rs, `run_migrations` and `build_redis_pool`. What the libraries answer is a
-- parameter.
use Prim.Native.Nat.{max}
use todo_rust.Prelude.{Bool, List, if◌then◌else◌, true, ℕ}
use todo_rust.App.Config.{
  Config, ConfigError, ConfigTools, DbPoolConfig, ObservabilityConfig, socket_addr,
}
use todo_rust.App.Config.Loading.{Environment, from_env}
use todo_rust.App.Middleware.RateLimit.{RateLimiter}
use todo_rust.App.Start.{
  SessionLayer, ensure_dev_user, login_limiter, session_layer, start_assets, start_cache,
}
use todo_rust.App.State.{AppState}
use todo_rust.App.World.{Ambient}
use todo_rust.Assets.{AssetsError, Hasher}
use todo_rust.FileTree.{Node}
use todo_rust.I18n.Messages.{Locales}
use todo_rust.Observability.{
  ObservabilityError, ObservabilityGuard, OtlpSettings, build_otlp_logger_provider,
  build_otlp_tracer_provider, init_tracing, install_metrics_recorder,
}
use todo_rust.Prelude.Exec.{Exec, Result, err, map_err_result, ok, pure, raise, ◌>>=◌, ◌>>◌}
use todo_rust.Storage.{Database, SqlxError, StorageError, database}
use todo_rust.Storage.UserRepo.{Accounts}
use todo_rust.Text.{Text}

-- The failures of the start; those of the libraries come as texts.
pub data StartError : Type 0 where
  config_failed : ConfigError → StartError
  tracing_failed : ObservabilityError → StartError
  metrics_failed : ObservabilityError → StartError
  storage_failed : StorageError → StartError
  sessions_failed : Text → StartError
  locales_failed : Text → StartError
  assets_failed : AssetsError → StartError
  listen_failed : Text → StartError

-- What `listenfd` gives.
pub data Inherited : Type 0 where
  socket : Text → Inherited
  no_socket : Inherited

-- The libraries at the start, each by its answer.
pub record StartTools (H : Type 0) : Type 0 where
  pub config : ConfigTools
  pub accounts : Accounts
  pub hasher : Hasher H
  pub install_tracer : OtlpSettings → Result Text ℕ
  pub install_logger : OtlpSettings → Result Text ℕ
  pub subscribed : Bool
  pub set_buckets : Text → List ℕ → Result Text (Unit {0})
  pub install_recorder : Unit {0} → Result Text (Unit {0})
  pub connect : DbPoolConfig → Result SqlxError (Unit {0})
  pub migrate : Result Text (Unit {0})
  pub migrate_sessions : Result Text (Unit {0})
  pub redis_config : Text → Result Text Text
  pub redis_pool : Text → ℕ → Result Text (Unit {0})
  pub load_locales : Text → Result Text Locales
  pub static_node : Text → Node
  pub take_listener : Result Text Inherited
  pub set_nonblocking : Text → Result Text (Unit {0})
  pub from_std : Text → Result Text Text
  pub bind : Text → Result Text Text

-- What the start changes: the environment that the configuration is read from, the tables, and
-- which migrations have run.
pub record Machine : Type 0 where
  pub env : Environment
  pub db : Database
  pub migrated : Bool
  pub sessions_migrated : Bool

abbrev pub Starting : Type 0 → Type 0
Starting A = Exec StartError Machine A

-- A result that changes nothing.
abbrev pub given : {E A : Type 0} → (E → StartError) → Result E A → Starting A
given f r m = (map_err_result f r, m)

-- What serves, once the start has succeeded.
pub record Running : Type 0 where
  pub config : Config
  pub guard : ObservabilityGuard
  pub state : AppState
  pub locales : Locales
  pub limiter : RateLimiter
  pub session : SessionLayer
  pub listener : Text

module _ {H : Type 0} (x : StartTools H) where
  unfoldable pub build_pool : DbPoolConfig → Result StorageError (Unit {0})
  build_pool cfg = map_err_result database (x.connect cfg)

  unfoldable pub run_migrations : Starting (Unit {0})
  run_migrations m = elim x.migrate [
    | err e ↦ (err (storage_failed (StorageError.migrate e)), m)
    | ok u ↦ (ok tt, record m { migrated = true })
  ]

  unfoldable pub run_session_migrations : Starting (Unit {0})
  run_session_migrations m = elim x.migrate_sessions [
    | err e ↦ (err (sessions_failed e), m)
    | ok u ↦ (ok tt, record m { sessions_migrated = true })
  ]

  -- The pool takes at least one connection.
  unfoldable pub build_redis_pool : Text → ℕ → Result Text (Unit {0})
  build_redis_pool url size = elim (x.redis_config url) [
    | err e ↦ err e
    | ok cfg ↦ x.redis_pool cfg (max size 1)
  ]

  unfoldable pub read_environment : Starting Config
  read_environment m =
      let (r, env) = from_env x.config m.env in
      (map_err_result config_failed r, record m { env = env })

  unfoldable pub listen : Text → Starting Text
  listen addr = elim x.take_listener [
    | err e ↦ raise (listen_failed e)
    | ok (socket s) ↦
        (given listen_failed (x.set_nonblocking s) >> given listen_failed (x.from_std s))
    | ok no_socket ↦ given listen_failed (x.bind addr)
  ]

  -- `ensure_dev_user`, which is there in debug builds.
  unfoldable pub dev_user : Bool → Config → Ambient → Text → Starting (Unit {0})
  dev_user debug cfg ambient password m =
      let (r, db) =
        ensure_dev_user x.accounts debug cfg ambient.now (record { uuid = ambient.fresh })
          ambient.salt password m.db in
      if debug then (map_err_result storage_failed r, record m { db = db }) else (ok tt, m)

  unfoldable pub trace_logs : ObservabilityConfig → Result ObservabilityError ObservabilityGuard
  trace_logs cfg =
      init_tracing (build_otlp_tracer_provider x.install_tracer cfg)
        (build_otlp_logger_provider x.install_logger cfg) x.subscribed cfg

  -- The databases, behind the configuration and the logs.
  unfoldable pub open_storage : Config → Starting (Unit {0})
  unfolding build_pool run_migrations run_session_migrations
  open_storage cfg = do
    given storage_failed (build_pool cfg.database)
    run_migrations
    run_session_migrations

  -- The sessions and the socket, behind the state.
  unfoldable pub open_server : Config → ObservabilityGuard → AppState → Locales → Starting Running
  unfolding listen
  open_server cfg guard state locales = do
    session ← given config_failed (session_layer x.config cfg)
    addr ← given config_failed (socket_addr x.config cfg.server)
    listener ← listen addr
    pure (record {
      config = cfg;
      guard = guard;
      state = state;
      locales = locales;
      limiter = login_limiter cfg;
      session = session;
      listener = listener;
    })

  -- The rest of the start behind the databases.
  unfoldable pub open_state : Bool → Ambient → Text → Config → ObservabilityGuard → Starting Running
  unfolding build_redis_pool dev_user open_server
  open_state debug ambient password cfg guard = do
    let cache = start_cache build_redis_pool cfg
    locales ← given locales_failed (x.load_locales cfg.locales_dir)
    assets ← given assets_failed (start_assets x.hasher cfg (x.static_node cfg.static_dir))
    let state : AppState = record { config = cfg; cache = cache; assets = assets; debug = debug }
    dev_user debug cfg ambient password
    open_server cfg guard state locales

  unfoldable pub start : Bool → Ambient → Text → Starting Running
  unfolding read_environment trace_logs open_storage open_state
  start debug ambient password = do
    cfg ← read_environment
    guard ← given tracing_failed (trace_logs cfg.observability)
    given metrics_failed (install_metrics_recorder x.set_buckets x.install_recorder)
    open_storage cfg
    open_state debug ambient password cfg guard
