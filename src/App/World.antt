-- ===== src/App/World.antt =====
-- What a request reads and changes outside the process's constants: Postgres, the cache server, the
-- session and the metrics. `R` is the state of the cache server and `S` that of the session store;
-- the libraries that the handlers call are the fields of `External`.
use todo_rust.Prelude.{Bool, List, Option, [], none, some, ℕ, ◌++◌, ◌∷◌, ◌≡◌}
use todo_rust.App.Error.{AppError, from_storage, internal}
use todo_rust.App.Http.{HttpTools}
use todo_rust.Domain.{Time, Todo, User, Uuid}
use todo_rust.Domain.Validation.{Validator}
use todo_rust.I18n.Locale.{LanguageIdentifier, LanguageTools}
use todo_rust.I18n.Messages.{Locales}
use todo_rust.I18n.Tz.{Tz, TzDatabase}
use todo_rust.Metrics.{Metric}
use todo_rust.Prelude.Exec.{Exec, Result, err, map_err, modify, ok}
use todo_rust.Storage.{Database, SqlxError, StorageError}
use todo_rust.Storage.UserRepo.{Accounts}
use todo_rust.Text.{Text}

abbrev pub AuthUserRecord : Type 0
AuthUserRecord = User

-- `axum_login::AuthSession`: the user that it found, and what it keeps.
pub record AuthSession (S : Type 0) : Type 0 where
  pub user : Option AuthUserRecord
  pub store : S

-- `auth.login(&user)` and `auth.logout()`, with the text of the error of the session store.
pub record SessionTools (S : Type 0) : Type 0 where
  pub login : AuthUserRecord → AuthSession S → Result Text (AuthSession S)
  pub logout : AuthSession S → Result Text (AuthSession S)

-- A login that succeeds makes the user the session's, a logout leaves none.
pub record KeepsSessions {S : Type 0} (x : SessionTools S) : Type 0 where
  pub user-login : (u : AuthUserRecord) (a b : AuthSession S) → x.login u a ≡ ok b → b.user ≡ some u
  pub user-logout : (a b : AuthSession S) → x.logout a ≡ ok b → b.user ≡ none

-- The commands of the cache server, at an instant in seconds; the text is that of the error.
pub record RedisClient (R : Type 0) : Type 0 where
  pub get : Time → Text → R → Result Text (Option Text) × R
  pub set : Time → Text → Text → ℕ → R → Result Text (Unit {0}) × R
  pub del : Time → Text → R → Result Text ℕ × R

-- A value that a template is given.
pub data TemplateValue : Type 0 where
  null : TemplateValue
  text : Text → TemplateValue
  flag : Bool → TemplateValue
  a_user : User → TemplateValue
  a_todo : Todo → TemplateValue
  todo_list : List Todo → TemplateValue
  items : List (Text × List Text) → TemplateValue

abbrev pub Context : Type 0
Context = List (Text × TemplateValue)

-- `serde_json` on the list of todos that the cache holds.
pub record Codec (T : Type 0) : Type 0 where
  pub encode : T → Option Text
  pub decode : Text → Option T

-- What is encoded decodes to itself.
pub record RoundTrips {T : Type 0} (c : Codec T) : Type 0 where
  pub decode-encode : (v : T) (raw : Text) → c.encode v ≡ some raw → c.decode raw ≡ some v

pub record External (R S : Type 0) : Type 0 where
  pub validator : Validator
  pub accounts : Accounts
  pub redis : RedisClient R
  pub sessions : SessionTools S
  pub http : HttpTools
  pub locales : Locales
  pub languages : LanguageTools
  pub zones : TzDatabase
  pub codec : Codec (List Todo)
  -- `Templates::render`: `none` is an error of the template engine.
  pub render : Text → Context → Option Text
  pub display_sqlx : SqlxError → Text
  pub display_uuid : Uuid → Text

pub record World (R S : Type 0) : Type 0 where
  pub db : Database
  pub redis : R
  pub auth : AuthSession S
  pub metrics : List Metric

-- What a request draws from outside: the instant, a fresh identifier and a salt.
pub record Ambient : Type 0 where
  pub now : Time
  pub fresh : Uuid
  pub salt : ℕ

-- What the middleware left on the request.
pub record RequestContext : Type 0 where
  pub locale : LanguageIdentifier
  pub tz : Tz
  pub csp_nonce : Text

abbrev pub Handler : (R S A : Type 0) → Type 0
Handler R S A = Exec AppError (World R S) A

module _ {R S : Type 0} where
  -- `metrics::counter!(…).increment(1)`
  abbrev pub record_metrics : List Metric → World R S → World R S
  record_metrics ms w = record w { metrics = w.metrics ++ ms }

  abbrev pub count : Metric → Handler R S (Unit {0})
  count m = modify (record_metrics (m ∷ []))

  -- A call of a repository.
  abbrev pub on_db : {E A : Type 0} → Exec E Database A → Exec E (World R S) A
  on_db m w = let (r, db) = m w.db in (r, record w { db = db })

  -- A call of a repository under `?`.
  abbrev pub on_db? : {A : Type 0} → External R S → Exec StorageError Database A → Handler R S A
  on_db? x m = map_err (from_storage x.display_sqlx) (on_db m)

  -- A result of the session store, with the text before that of its error.
  abbrev pub set_session :
      Text → (AuthSession S → Result Text (AuthSession S)) → Handler R S (Unit {0})
  set_session before f w = elim (f w.auth) [
    | ok a ↦ (ok tt, record w { auth = a })
    | err e ↦ (err (internal (before ++ e)), w)
  ]
