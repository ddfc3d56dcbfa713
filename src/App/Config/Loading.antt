-- ===== src/App/Config/Loading.antt =====
-- `Config::from_env` of crates/app/src/config.rs: defaults, overrides and the environment. The
-- sources are merged by the `config` crate by key; here a source gives the text of a key or nothing.
-- A value that is set as an override comes before the environment, and that before a default.
use Prim.Native.Nat.{◌^◌}
use todo_rust.Prelude.{
  Bool, Option, and_then, if◌then◌else◌, map_option, none, or_else, some, unwrap_or, ℕ,
}
use todo_rust.App.Config.{
  AuthConfig, CacheConfig, Config, ConfigError, ConfigTools, DbPoolConfig, DevConfig, LogFormat,
  ObservabilityConfig, ServerConfig, build, decoded_session_key, default_config, json, pretty,
  socket_addr, ℤ,
}
use todo_rust.Assets.{dev}
use todo_rust.Prelude.Exec.{Exec, err, ok, ok_or, pure, ◌>>=◌}
use todo_rust.Text.{Text, codes, text_eq}

pub data Key : Type 0 where
  server_host server_port server_shutdown server_trust : Key
  database_url database_max database_min database_timeout : Key
  cache_url cache_pool_size cache_ttl : Key
  auth_key auth_ttl auth_secure auth_domain : Key
  obs_name obs_endpoint obs_enabled obs_format : Key
  dir_templates dir_static dir_locales autoreload : Key
  limit_enabled dev_email dev_preview dev_fixtures : Key

-- A value of the `config` crate.
pub data Setting : Type 0 where
  str : Text → Setting
  num : ℕ → Setting
  signed : ℤ → Setting
  bool : Bool → Setting

-- `set_default` for every key.
unfoldable pub default_setting : Key → Setting
default_setting server_host = str default_config.server.host
default_setting server_port = num default_config.server.port
default_setting server_shutdown = num default_config.server.shutdown_timeout_secs
default_setting server_trust = bool default_config.server.trust_forwarded_for
default_setting Key.database_url = str default_config.database.url
default_setting database_max = num default_config.database.max_connections
default_setting database_min = num default_config.database.min_connections
default_setting database_timeout = num default_config.database.acquire_timeout_secs
default_setting cache_url = str default_config.cache.url
default_setting cache_pool_size = num default_config.cache.pool_size
default_setting cache_ttl = num default_config.cache.default_ttl_secs
default_setting auth_key = str default_config.auth.session_key
default_setting auth_ttl = signed default_config.auth.session_ttl_secs
default_setting auth_secure = bool default_config.auth.cookie_secure
default_setting auth_domain = str default_config.auth.cookie_domain
default_setting obs_name = str default_config.observability.service_name
default_setting obs_endpoint = str default_config.observability.otel_endpoint
default_setting obs_enabled = bool default_config.observability.otel_enabled
default_setting obs_format = str (codes "pretty")
default_setting dir_templates = str default_config.templates_dir
default_setting dir_static = str default_config.static_dir
default_setting dir_locales = str default_config.locales_dir
default_setting autoreload = bool default_config.template_autoreload
default_setting limit_enabled = bool default_config.rate_limit_enabled
default_setting dev_email = str default_config.dev.auto_login_email
default_setting dev_preview = bool default_config.dev.preview_enabled
default_setting dev_fixtures = str default_config.dev.preview_fixtures_dir

-- What `try_deserialize` of the `config` crate makes of a value where a field asks for a type, with the
-- conversions between texts, numbers and Booleans that the crate knows; an unsigned number is below
-- a limit.
pub record Coercions : Type 0 where
  pub as_text : Setting → Option Text
  pub as_bool : Setting → Option Bool
  pub as_number : ℕ → Setting → Option ℕ
  pub as_signed : Setting → Option ℤ

-- The process's environment: the two variables without a prefix, and what the `Environment` source
-- of the `config` crate makes of the variables `APP__…`.
pub record Environment : Type 0 where
  pub database_url : Option Text
  pub redis_url : Option Text
  pub app : Key → Option Setting
  pub coerce : Coercions

-- `set_override` for the two shortcuts.
unfoldable pub overrides : Environment → Key → Option Setting
overrides env Key.database_url = map_option str env.database_url
overrides env cache_url = map_option str env.redis_url
overrides env _ = none

unfoldable pub setting : Environment → Key → Setting
unfolding overrides default_setting
setting env key = unwrap_or (or_else (overrides env key) (env.app key)) (default_setting key)

-- `try_deserialize`, field by field.
module _ {A : Type 0} where
  abbrev expect : Option A → Exec ConfigError Environment A
  expect value = ok_or value (build (codes "invalid type"))

-- The names of the variants of `LogFormat`.
abbrev as_format : Text → Option LogFormat
as_format s =
    if text_eq s (codes "pretty")
    then some pretty
    else if text_eq s (codes "json")
    then some json
    else none

unfoldable pub get_text : Key → Exec ConfigError Environment Text
get_text key env = expect (env.coerce.as_text (setting env key)) env

unfoldable pub get_bool : Key → Exec ConfigError Environment Bool
get_bool key env = expect (env.coerce.as_bool (setting env key)) env

unfoldable pub get_number : ℕ → Key → Exec ConfigError Environment ℕ
get_number limit key env = expect (env.coerce.as_number limit (setting env key)) env

unfoldable pub get_signed : Key → Exec ConfigError Environment ℤ
get_signed key env = expect (env.coerce.as_signed (setting env key)) env

unfoldable pub read_server : Exec ConfigError Environment ServerConfig
unfolding get_text get_bool get_number
read_server = do
  host ← get_text server_host
  port ← get_number 65536 server_port
  shutdown_timeout_secs ← get_number (2 ^ 64) server_shutdown
  trust ← get_bool server_trust
  pure (record {
    host = host;
    port = port;
    shutdown_timeout_secs = shutdown_timeout_secs;
    trust_forwarded_for = trust;
  })

unfoldable pub read_database : Exec ConfigError Environment DbPoolConfig
unfolding get_text get_number
read_database = do
  url ← get_text Key.database_url
  max_connections ← get_number (2 ^ 32) database_max
  min_connections ← get_number (2 ^ 32) database_min
  acquire_timeout_secs ← get_number (2 ^ 64) database_timeout
  pure (record {
    url = url;
    max_connections = max_connections;
    min_connections = min_connections;
    acquire_timeout_secs = acquire_timeout_secs;
  })

unfoldable pub read_cache : Exec ConfigError Environment CacheConfig
unfolding get_text get_number
read_cache = do
  url ← get_text cache_url
  pool_size ← get_number (2 ^ 64) cache_pool_size
  default_ttl_secs ← get_number (2 ^ 64) cache_ttl
  pure (record { url = url; pool_size = pool_size; default_ttl_secs = default_ttl_secs })

unfoldable pub read_auth : Exec ConfigError Environment AuthConfig
unfolding get_text get_bool get_signed
read_auth = do
  session_key ← get_text auth_key
  session_ttl_secs ← get_signed auth_ttl
  cookie_secure ← get_bool auth_secure
  cookie_domain ← get_text auth_domain
  pure (record {
    session_key = session_key;
    session_ttl_secs = session_ttl_secs;
    cookie_secure = cookie_secure;
    cookie_domain = cookie_domain;
  })

unfoldable pub read_observability : Exec ConfigError Environment ObservabilityConfig
unfolding get_text get_bool
read_observability = do
  service_name ← get_text obs_name
  otel_endpoint ← get_text obs_endpoint
  otel_enabled ← get_bool obs_enabled
  log_format ← λ env. expect (and_then (env.coerce.as_text (setting env obs_format)) as_format) env
  pure (record {
    service_name = service_name;
    otel_endpoint = otel_endpoint;
    otel_enabled = otel_enabled;
    log_format = log_format;
  })

unfoldable pub read_dev : Exec ConfigError Environment DevConfig
unfolding get_text get_bool
read_dev = do
  auto_login_email ← get_text dev_email
  preview_enabled ← get_bool dev_preview
  preview_fixtures_dir ← get_text dev_fixtures
  pure (record {
    auto_login_email = auto_login_email;
    preview_enabled = preview_enabled;
    preview_fixtures_dir = preview_fixtures_dir;
  })

unfoldable pub read_config : Exec ConfigError Environment Config
unfolding read_server read_database read_cache read_auth read_observability read_dev
read_config = do
  server ← read_server
  db_config ← read_database
  cache ← read_cache
  auth ← read_auth
  observability ← read_observability
  templates_dir ← get_text dir_templates
  static_dir ← get_text dir_static
  locales_dir ← get_text dir_locales
  template_autoreload ← get_bool autoreload
  rate_limit_enabled ← get_bool limit_enabled
  dev ← read_dev
  pure (record {
    server = server;
    database = db_config;
    cache = cache;
    auth = auth;
    observability = observability;
    templates_dir = templates_dir;
    static_dir = static_dir;
    locales_dir = locales_dir;
    template_autoreload = template_autoreload;
    rate_limit_enabled = rate_limit_enabled;
    dev = dev;
  })

-- The two checks of the hot bits.
unfoldable pub check_config : ConfigTools → Config → Exec ConfigError Environment Config
check_config x cfg env = elim (decoded_session_key x cfg.auth) [
  | err e ↦ (err e, env)
  | ok key ↦ elim (socket_addr x cfg.server) [ err e ↦ (err e, env) | ok addr ↦ (ok cfg, env) ]
]

unfoldable pub from_env : ConfigTools → Exec ConfigError Environment Config
unfolding check_config
from_env x = do cfg ← read_config; check_config x cfg
