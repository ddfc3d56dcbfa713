-- ===== src/App/Start.antt =====
-- crates/app/src/main.rs: what the start decides, and the user of the login without a password.
pub mod Main
pub mod Checks
use todo_rust.Storage.UserRepo
use todo_rust.App.Middleware.RateLimit
use todo_rust.Prelude.{Bool, List, Option, false, if◌then◌else◌, is_some, none, some, true, ℕ, ◌*◌}
use todo_rust.App.Cache.{Cache, new}
use todo_rust.App.Config.{Config, ConfigError, ConfigTools, decoded_session_key, enabled_email, ℤ}
use todo_rust.App.Middleware.RateLimit.{RateLimiter, with_enabled, with_trust_forwarded_for}
use todo_rust.App.Routes.Todos.Writes.{answer}
use todo_rust.Assets.{Assets, AssetsError, Hasher, dev, production}
use todo_rust.Domain.{Time, User, UserId}
use todo_rust.FileTree.{Node}
use todo_rust.Prelude.Exec.{Exec, Result, err, ok, pure, ◌>>=◌, ◌>>◌}
use todo_rust.Storage.{Database, StorageError, conflict}
use todo_rust.Storage.UserRepo.{Accounts, find_by_email}
use todo_rust.Text.{Text, is_empty}

-- `Cache::new` with the pool, if `build_redis_pool` reached the cache server.
unfoldable pub start_cache : (Text → ℕ → Result Text (Unit {0})) → Config → Cache
start_cache connect cfg = elim (connect cfg.cache.url cfg.cache.pool_size) [
  | ok u ↦ new true cfg.cache.default_ttl_secs
  | err e ↦ new false cfg.cache.default_ttl_secs
]

unfoldable pub start_assets : {H : Type 0} → Hasher H → Config → Node → Result AssetsError Assets
start_assets hasher cfg static_node =
    if cfg.template_autoreload
    then ok (dev cfg.static_dir)
    else production hasher cfg.static_dir static_node

-- The session layer of `tower_sessions`, by the settings that it is given.
pub record SessionLayer : Type 0 where
  pub secure : Bool
  pub http_only : Bool
  pub same_site_lax : Bool
  pub inactivity_secs : ℤ
  pub domain : Option Text
  pub signing_key : List ℕ

unfoldable pub session_layer : ConfigTools → Config → Result ConfigError SessionLayer
session_layer x cfg = elim (decoded_session_key x cfg.auth) [
  | err e ↦ err e
  | ok key ↦ ok (record {
    secure = cfg.auth.cookie_secure;
    http_only = true;
    same_site_lax = true;
    inactivity_secs = cfg.auth.session_ttl_secs;
    domain = if is_empty cfg.auth.cookie_domain then none else some cfg.auth.cookie_domain;
    signing_key = key;
  })
]

-- The limiter of router.rs: 5 / 60 tokens a second, 5 at most.
unfoldable pub login_limiter : Config → RateLimiter
login_limiter cfg = with_enabled cfg.rate_limit_enabled (
    with_trust_forwarded_for cfg.server.trust_forwarded_for
      (RateLimit.new 12_000_000_000 1 (5 * 12_000_000_000)))

-- A conflict means that another process was faster.
unfoldable pub seeded : Result StorageError User → Result StorageError (Unit {0})
seeded (ok user) = ok tt
seeded (err (conflict m)) = ok tt
seeded (err e) = err e

module _ (x : Accounts) where
  unfoldable pub seed_user : Time → UserId → ℕ → Text → Text → Exec StorageError Database (Unit {0})
  unfolding seeded
  seed_user now fresh salt email password db =
      let (answer, db') =
        UserRepo.create x now fresh salt (record { email = email; password = password }) db in
      (seeded answer, db')

  -- `password` is the random text of 48 letters and digits.
  unfoldable pub ensure_dev_user :
      Bool → Config → Time → UserId → ℕ → Text → Exec StorageError Database (Unit {0})
  unfolding seed_user
  ensure_dev_user debug cfg now fresh salt password = elim (enabled_email debug cfg.dev) [
    | none ↦ pure tt
    | some email ↦ do
      existing ← find_by_email x email
      if is_some existing then pure tt else seed_user now fresh salt email password
  ]
