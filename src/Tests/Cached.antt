-- ===== src/Tests/Cached.antt =====
-- The handlers, the session and the cache over a concrete cache server: the texts under the keys.
use todo_rust.Storage.UserRepo
use todo_rust.Storage.TodoRepo
use todo_rust.App.Routes.Todos
use todo_rust.Prelude.{
  Bool-cases, List, Option, [], arith, false, if◌then◌else◌, inl, inr, none, refl, some, some_inj,
  sym, true, ◌==◌, ◌∙◌, ◌∷◌, ◌≡◌, ◌⊎◌,
}
use todo_rust.App.Cache.{get, get_or_compute, invalidate, is_enabled, put, read_answer}
use todo_rust.App.Config.{default_config, enabled_email}
use todo_rust.App.Error.{unauthorized}
use todo_rust.App.Http.{Headers, empty_response, get_header, insert_header, remove_header}
use todo_rust.App.Middleware.Security.Headers.{get_header-insert_another, get_header-insert_header}
use todo_rust.App.Render.{authenticate, require_user}
use todo_rust.App.Routes.Auth.{auto_login, login, login_accepted, signup}
use todo_rust.App.Routes.Auth.DevLogin.{IsDevUser, auto_login_sound}
use todo_rust.App.Routes.Auth.Guards.{todos_unauthorized}
use todo_rust.App.Routes.Auth.Signin.{login_sound}
use todo_rust.App.Routes.Auth.Signup.{signup_sound}
use todo_rust.App.Routes.Todos.Writes.{answer, answer-Coherent, delete_write}
use todo_rust.App.State.{AppState, invalidate_todos_cache, list_todos_cached}
use todo_rust.App.State.Coherence.{Coherent, KeepsTexts, list_todos_cached-Coherent, listing}
use todo_rust.App.World.{
  Ambient, Codec, External, KeepsSessions, RedisClient, RequestContext, RoundTrips, SessionTools,
  World,
}
use todo_rust.Assets.{passthrough}
use todo_rust.Domain.{Credentials, NewUser, Todo, User}
use todo_rust.Domain.Validation.{check_field, validate_credentials}
use todo_rust.I18n.Locale.{default_locale}
use todo_rust.Prelude.Exec.{err, ok}
use todo_rust.Storage.{run_sql}
use todo_rust.Storage.TodoRepo.{
  delete_row, insert_row, is_row, list_for_user, order_rows, row_to_todo, select_owned, updated,
}
use todo_rust.Storage.UserRepo.{
  find_by_email, row_to_user, same_email, select_by_email, stored_hash, verify,
}
use todo_rust.Storage.UserRepo.Signin.{SignedIn}
use todo_rust.Tests.Fixtures.{account, accounts, alice, db, milk, new_eggs, todo_of, validator}
use todo_rust.Text.{Text, codes, is_whitespace, text_eq, trim, trim_end, trim_start}
use todo_rust.Text.Laws.{text_eq_iff}

remove_header-same : (key : Text) (h : Headers) → get_header key (remove_header key h) ≡ none
unfolding get_header remove_header
remove_header-same key [] = refl
remove_header-same key ((k, v) ∷ h) = ground (arith, remove_header-same key h)

abbrev pub redis : RedisClient Headers
redis = record {
  get = λ now key r. (ok (get_header key r), r);
  set = λ now key value ttl r. (ok tt, insert_header key value r);
  del = λ now key r. (ok 1, remove_header key r);
}

insert_header-cases :
    (key value another raw : Text) (r : Headers)
    → get_header another (insert_header key value r) ≡ some raw
    → (get_header another r ≡ some raw) ⊎ (raw ≡ value)
insert_header-cases key value another raw r h = elim (Bool-cases (text_eq another key)) [
  | inr e ↦ inl (sym (get_header-insert_another key another value r e) ∙ h)
  | inl e ↦
      let same = (text_eq_iff another key).0 e in
      inr (some_inj (sym (rw same at h) ∙ get_header-insert_header key value r))
]

gives :
    (key raw : Text) (r : Headers)
    → (redis.get 0 key r).0 ≡ ok (some raw)
    → get_header key r ≡ some raw
gives key raw r h = cc

abbrev redis-KeepsTexts : KeepsTexts redis
redis-KeepsTexts = record {
  content = λ r key. get_header key r;
  get_gives = λ now key raw r h. gives key raw r h;
  get_keeps = λ now key another raw r h. h;
  set_keeps = λ now key value ttl another raw r h. insert_header-cases key value another raw r h;
  del_removes = λ now key n r h. remove_header-same key r;
}

-- A list of at most one todo is its fields.
abbrev pub encode_todos : List Todo → Option Text
encode_todos [] = some []
encode_todos (t ∷ []) = some (
    t.id.uuid
    ∷ t.owner_id.uuid
    ∷ (if t.completed then 1 else 0)
    ∷ t.created_at
    ∷ t.updated_at
    ∷ t.title)
encode_todos (t ∷ u ∷ l) = none

abbrev pub decode_todos : Text → Option (List Todo)
decode_todos [] = some []
decode_todos (id ∷ owner ∷ done ∷ created ∷ updated ∷ title) =
    some (todo_of id owner title (done == 1) created updated ∷ [])
decode_todos _ = none

pub codec-RoundTrips :
    (v : List Todo) (raw : Text) → encode_todos v ≡ some raw → decode_todos raw ≡ some v
codec-RoundTrips [] raw h = rw (← some_inj h) refl
codec-RoundTrips (t ∷ []) raw h = rw (← some_inj h) (ground arith)
codec-RoundTrips (t ∷ u ∷ l) raw h = cc

abbrev pub codec : Codec (List Todo)
codec = record { encode = encode_todos; decode = decode_todos }

pub codec-laws : RoundTrips codec
codec-laws = record { decode-encode = codec-RoundTrips }

abbrev sessions : SessionTools (Unit {0})
sessions = record {
  login = λ u s. ok (record s { user = some u });
  logout = λ s. ok (record s { user = none });
}

sessions-KeepsSessions : KeepsSessions sessions
sessions-KeepsSessions = record {
  user-login = λ u a b h. ground arith;
  user-logout = λ a b h. ground arith;
}

abbrev pub external_with : {R : Type 0} → RedisClient R → External R (Unit {0})
external_with client = record {
  validator = validator;
  accounts = accounts;
  redis = client;
  sessions = sessions;
  http = record {
    to_str = λ t. some t;
    from_str = λ t. some t;
    redirect_to = λ t. record { status = 303; headers = (codes "location", t) ∷ []; body = [] };
  };
  locales = record { try_lookup_complete = λ l id args. some id };
  languages = record {
    parse = λ t. none;
    parse_accepted_languages = λ t. [];
    negotiate_languages = λ r a d. [];
  };
  zones = record { find_by_name = λ t. []; utc = record { name = codes "UTC" } };
  codec = codec;
  render = λ name context. some name;
  display_sqlx = λ e. [];
  display_uuid = λ id. id ∷ [];
}

abbrev pub external : External Headers (Unit {0})
external = external_with redis

abbrev pub world : World Headers (Unit {0})
world = record { db = db; redis = []; auth = record { user = none; store = tt }; metrics = [] }

abbrev pub state : AppState
state = record {
  config = default_config;
  cache = record { pool = true; default_ttl = 60 };
  assets = passthrough (codes "static");
  debug = false;
}

abbrev pub milk_list : List Todo
milk_list = todo_of 10 1 (codes "milk") false 10 10 ∷ []

list_todos_cached_example :
    (milk_list ≡ listing alice db.tables)
    × Coherent external redis-KeepsTexts codec-laws alice
        (list_todos_cached external state 3 alice world).1
unfolding Coherent list_todos_cached is_enabled get_or_compute get put read_answer get_header
    list_for_user run_sql select_owned order_rows insert_row row_to_todo
list_todos_cached_example =
    list_todos_cached-Coherent external redis-KeepsTexts codec-laws state 3 alice world milk_list
      (λ raw h. cc) refl

abbrev pub request : RequestContext
request = record { locale = default_locale; tz = record { name = codes "UTC" }; csp_nonce = [] }

abbrev pub ambient : Ambient
ambient = record { now = 3; fresh = 12; salt = 0 }

todos_unauthorized_example :
    (Todos.list external state ambient request world ≡ (err unauthorized, world))
    × (Todos.create external state ambient request new_eggs world ≡ (err unauthorized, world))
    × (Todos.toggle external state ambient request milk world ≡ (err unauthorized, world))
    × (Todos.delete external state ambient milk world ≡ (err unauthorized, world))
todos_unauthorized_example =
    todos_unauthorized external state ambient request new_eggs milk world refl

abbrev credentials : Credentials
credentials = record { email = codes "a@b"; password = codes "secret"; next = none }

login_sound_example :
    (world.auth.user ≡ some (row_to_user (account 1 (codes "a@b") (codes "secret"))))
    ⊎ SignedIn accounts
        (codes "a@b")
        (codes "secret")
        db.tables
        (row_to_user (account 1 (codes "a@b") (codes "secret")))
unfolding login validate_credentials check_field login_accepted authenticate verify select_by_email
    stored_hash same_email run_sql text_eq trim trim_start trim_end is_whitespace row_to_user
login_sound_example =
    login_sound external sessions-KeepsSessions state [] request credentials world
      (row_to_user (account 1 (codes "a@b") (codes "secret"))) refl

abbrev pub signed_in : World Headers (Unit {0})
signed_in = record world {
  auth = record {
    user = some (row_to_user (account 1 (codes "a@b") (codes "secret")));
    store = tt;
  };
}

answer-Coherent_example :
    Coherent external redis-KeepsTexts codec-laws alice
      (answer external state ambient request (delete_write milk) signed_in).1
unfolding answer Todos.delete require_user row_to_user TodoRepo.delete delete_row is_row run_sql
    invalidate_todos_cache is_enabled invalidate
answer-Coherent_example =
    answer-Coherent external redis-KeepsTexts codec-laws state ambient request (delete_write milk)
      (row_to_user (account 1 (codes "a@b") (codes "secret"))) signed_in (empty_response 200) 1 refl
      refl refl refl

abbrev new_dora : NewUser
new_dora = record { email = codes "d@e"; password = codes "long" }

signup_sound_example :
    ((signup external ambient [] request new_dora world).1.auth ≡ world.auth)
    ⊎ ((user : User) × ((UserRepo.create accounts 3 (record { uuid = 12 }) 0 new_dora db).0
          ≡ ok user)
        × ((signup external ambient [] request new_dora world).1.auth.user ≡ some user))
signup_sound_example =
    signup_sound external sessions-KeepsSessions ambient [] request new_dora world

-- A build for debugging, where the address of the first user is set.
abbrev dev_state : AppState
dev_state = record state {
  debug = true;
  config = record default_config {
    dev = record default_config.dev { auto_login_email = codes "a@b" };
  };
}

auto_login_example :
    (world.auth.user ≡ some (row_to_user (account 1 (codes "a@b") (codes "secret"))))
    ⊎ IsDevUser accounts dev_state db.tables
        (row_to_user (account 1 (codes "a@b") (codes "secret")))
unfolding auto_login enabled_email find_by_email select_by_email run_sql same_email row_to_user
    text_eq trim trim_start trim_end is_whitespace
auto_login_example =
    auto_login_sound external sessions-KeepsSessions dev_state world
      (row_to_user (account 1 (codes "a@b") (codes "secret"))) refl
