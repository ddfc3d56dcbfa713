-- ===== src/App/Config/Checks.antt =====
-- The checks of `from_env`, and of the login without a password.
use todo_rust.Prelude.{
  Bool, List, arith, false, inl, inr, length, some, subst, true, ℕ, ◌↔◌, ◌≡◌, ◌≤◌,
}
use todo_rust.App.Config.{
  AuthConfig, Config, ConfigTools, DevConfig, decoded_session_key, enabled_email, socket_addr,
}
use todo_rust.App.Config.Loading.{Environment, check_config, from_env, read_config}
use todo_rust.Assets.{dev}
use todo_rust.Prelude.Exec.{>>=-eq-ok, Result-cases, ok}
use todo_rust.Text.{Text, is_empty, trim}

-- The key that signs the cookies has at least 64 bytes, and the address can be bound.
pub record Checked (x : ConfigTools) (cfg : Config) : Type 0 where
  pub key : List ℕ
  pub addr : Text
  pub decoded : decoded_session_key x cfg.auth ≡ ok key
  pub long_enough : 64 ≤ length key
  pub bound : socket_addr x cfg.server ≡ ok addr

pub decoded_session_key-bounds :
    (x : ConfigTools) (auth : AuthConfig) (key : List ℕ)
    → decoded_session_key x auth ≡ ok key
    → 64 ≤ length key
unfolding decoded_session_key
decoded_session_key-bounds x auth key h = ground arith

check_config_sound :
    (x : ConfigTools) (cfg cfg' : Config) (env env' : Environment)
    → check_config x cfg env ≡ (ok cfg', env')
    → (cfg ≡ cfg') × Checked x cfg
unfolding check_config
check_config_sound x cfg cfg' env env' h = elim (Result-cases (decoded_session_key x cfg.auth)) [
  | inr (e, p) ↦ absurd (ground arith)
  | inl (key, p) ↦ elim (Result-cases (socket_addr x cfg.server)) [
    | inr (e, q) ↦ absurd (ground arith)
    | inl (addr, q) ↦ (
      ground arith,
      record {
        key = key;
        addr = addr;
        decoded = p;
        long_enough = decoded_session_key-bounds x cfg.auth key p;
        bound = q;
      },
    )
  ]
]

-- A configuration that `from_env` accepts has a key of at least 64 bytes and an address that
-- parses.
pub from_env_sound :
    (x : ConfigTools) (env : Environment) (cfg : Config)
    → (from_env x env).0 ≡ ok cfg
    → Checked x cfg
unfolding from_env
from_env_sound x env cfg h =
    let (cfg', env', _, checked) =
      >>=-eq-ok read_config (check_config x) env {s' = (from_env x env).1} (ground arith) in
    let (same, passed) = check_config_sound x cfg' cfg env' (from_env x env).1 checked in
    subst (Checked x) same passed

-- The login without a password is there just for debug builds whose address is not blank, and for
-- the trimmed address.
pub enabled_email_iff :
    (debug : Bool) (dev : DevConfig) (email : Text)
    → (enabled_email debug dev ≡ some email)
      ↔ ((debug ≡ true) × (trim dev.auto_login_email ≡ email) × (is_empty email ≡ false))
unfolding enabled_email
enabled_email_iff debug dev email = ground arith
