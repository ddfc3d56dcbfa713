-- ===== src/Tests/Settings.antt =====
-- The configuration, the headers and the stories at concrete inputs.
use mathlib.Core.List.{Perm}
use todo_rust.Prelude.{
  All, Option, [], arith, false, if◌then◌else◌, ltb, none, refl, some, true, ℕ, ◌*◌, ◌++◌, ◌∷◌, ◌≡◌,
}
use todo_rust.App.Cache.{new}
use todo_rust.App.Config.{
  Config, ConfigTools, decoded_session_key, default_config, enabled_email, pos, socket_addr,
}
use todo_rust.App.Config.Checks.{Checked, from_env_sound}
use todo_rust.App.Config.Loading.{
  Coercions, Environment, Key, Setting, auth_key, bool, check_config, default_setting, from_env,
  get_bool, get_number, get_signed, get_text, num, overrides, read_auth, read_cache, read_config,
  read_database, read_dev, read_observability, read_server, setting, signed, str,
}
use todo_rust.App.Http.{Headers, Response, empty_response, get_header, insert_header}
use todo_rust.App.Middleware.Security.{Layers, SetsMissing, apply_security_headers}
use todo_rust.App.Middleware.Security.Headers.{
  Basic, apply_security_headers_lem, one_year, transport_security,
}
use todo_rust.App.Preview.Discovery.{HasStories, discover_lem, pages_in, path_leb}
use todo_rust.App.Preview.Fixtures.{
  Story, TemplateEntry, discover, insert_by, is_listed, is_toml, read_stories, sort_by,
  stem_and_extension, stories_for, story_leb, story_of, template_entry, text_leb, walk_template,
  walk_templates,
}
use todo_rust.App.Preview.Order.{IsSorted}
use todo_rust.App.Preview.Stories.{InOrder, fixtures_in, stories_for_lem}
use todo_rust.App.Start.{ensure_dev_user, login_limiter, session_layer, start_assets, start_cache}
use todo_rust.App.Start.Checks.{Migrated, Protected, start_sound}
use todo_rust.App.Start.Main.{
  Machine, Running, StartTools, build_pool, build_redis_pool, dev_user, listen, no_socket,
  open_server, open_state, open_storage, read_environment, run_migrations, run_session_migrations,
  start, trace_logs,
}
use todo_rust.App.World.{External}
use todo_rust.Assets.{hashed, production, walk_files, walk_root}
use todo_rust.Domain.{User}
use todo_rust.FileTree.{Entries, Node, dir, end, entry, path_join, regular, rel_join}
use todo_rust.I18n.Locale.{LanguageIdentifier, LanguageTools}
use todo_rust.Observability.{init_tracing, install_metrics_recorder}
use todo_rust.Prelude.Exec.{err, ok}
use todo_rust.Storage.UserRepo.{row_to_user}
use todo_rust.Tests.Cached.{external}
use todo_rust.Tests.Fixtures.{account, accounts, db}
use todo_rust.Text.{
  Text, codes, ends_with, replace, rsplit_once, starts_with, strip_prefix, text_eq, trim, trim_end,
  trim_start,
}

-- Every text is its bytes, none is hexadecimal, and every address parses.
abbrev tools : ConfigTools
tools = record {
  decode_hex = λ t. none;
  as_bytes = λ t. t;
  parse_socket = λ t. some t;
  show_port = λ n. n ∷ [];
}

abbrev long_key : Text
long_key = codes "0123456789012345678901234567890123456789012345678901234567890123"

abbrev from_key : Key → Option Setting
from_key auth_key = some (str long_key)
from_key key = none

-- Values of the type that is asked for, and no conversions.
abbrev strict : Coercions
strict = record {
  as_text = λ s. elim s [ str t ↦ some t | num n ↦ none | signed z ↦ none | bool b ↦ none ];
  as_bool = λ s. elim s [ str t ↦ none | num n ↦ none | signed z ↦ none | bool b ↦ some b ];
  as_number = λ limit s. elim s [
    | str t ↦ none
    | num n ↦ if ltb n limit then some n else none
    | signed z ↦ none
    | bool b ↦ none
  ];
  as_signed =
      λ s. elim s [ str t ↦ none | num n ↦ some (pos n) | signed z ↦ some z | bool b ↦ none ];
}

abbrev env : Environment
env = record { database_url = some (codes "pg"); redis_url = none; app = from_key; coerce = strict }

abbrev accepted : Config
accepted = record default_config {
  database = record {
    url = codes "pg";
    max_connections = 20;
    min_connections = 2;
    acquire_timeout_secs = 5;
  };
  auth = record {
    session_key = long_key;
    session_ttl_secs = pos (60 * 60 * 24 * 30);
    cookie_secure = false;
    cookie_domain = [];
  };
}

from_env_sound_example : Checked tools accepted
unfolding from_env read_config read_server read_database read_cache read_auth read_observability
    read_dev get_text get_bool get_number get_signed setting overrides default_setting check_config
    decoded_session_key socket_addr text_eq
from_env_sound_example = from_env_sound tools env accepted refl

abbrev set_missing : Text → Text → Option Text → Response → Response
set_missing name value (some old) r = r
set_missing name value none r = record r { headers = insert_header name value r.headers }

abbrev layers : Layers
layers = record {
  if_not_present = λ name value r. set_missing name value (get_header name r.headers) r;
  encode_url_safe = λ bytes. bytes;
}

layers-SetsMissing : SetsMissing layers
layers-SetsMissing = record {
  present = λ name value old r h. ground arith;
  absent = λ name value r h. ground arith;
}

apply_security_headers_example :
    Basic layers layers-SetsMissing
      (empty_response 200)
      (apply_security_headers layers true (empty_response 200))
    × (get_header transport_security
          (apply_security_headers layers true (empty_response 200)).headers
        ≡ some one_year)
unfolding get_header
apply_security_headers_example =
    apply_security_headers_lem layers layers-SetsMissing true (empty_response 200)

abbrev story : Text → Story
story name = record { name = name; file = path_join (codes "f") (name ++ codes ".toml") }

abbrev file : Node
file = regular (record { reads = [] })

stories_for_example :
    Perm (story (codes "default") ∷ story (codes "a") ∷ []) (
      fixtures_in (codes "f") (entry (codes "a.toml") file (entry (codes "default.toml") file end)))
    × InOrder (story (codes "default") ∷ story (codes "a") ∷ [])
unfolding stories_for read_stories story_of stem_and_extension rsplit_once is_toml text_eq sort_by
    insert_by story_leb text_leb path_join starts_with strip_prefix ends_with
stories_for_example =
    stories_for_lem (codes "f")
      (entry (codes "a.toml") file (entry (codes "default.toml") file end))
      (story (codes "default") ∷ story (codes "a") ∷ []) refl

-- Two pages, one of them in a directory below, and a file that is not listed.
abbrev pages : Entries
pages =
    entry (codes "b.html") file
      (entry (codes "_x.html") file (entry (codes "a") (dir (entry (codes "c.html") file end)) end))

abbrev no_stories : Text → TemplateEntry
no_stories path = record { template_path = path; stories = [] }

discover_example :
    Perm (codes "a/c.html" ∷ codes "b.html" ∷ []) (pages_in pages [])
    × IsSorted path_leb (no_stories (codes "a/c.html") ∷ no_stories (codes "b.html") ∷ [])
    × All
        (HasStories (codes "f") (λ _. none))
        (no_stories (codes "a/c.html") ∷ no_stories (codes "b.html") ∷ [])
unfolding discover walk_template walk_templates template_entry is_listed rel_join replace
    stories_for sort_by insert_by text_leb starts_with strip_prefix ends_with
discover_example =
    discover_lem (codes "f") (λ _. none) pages
      (no_stories (codes "a/c.html") ∷ no_stories (codes "b.html") ∷ []) refl

abbrev french : LanguageIdentifier
french = record { language = codes "fr"; to_string = codes "fr" }

-- Every text is the identifier of French.
abbrev languages : LanguageTools
languages = record {
  parse = λ t. some french;
  parse_accepted_languages = λ t. [];
  negotiate_languages = λ r a d. [];
}

abbrev cookies : Headers
cookies = (codes "cookie", codes "tz=UTC; locale=fr") ∷ []

abbrev speaking : External Headers (Unit {0})
speaking = record external { languages = languages }

-- A user whose profile has the locale of the cookie.
abbrev french_user : User
french_user = record (row_to_user (account 1 (codes "a@b") (codes "secret"))) {
  locale = some (codes "fr");
}

abbrev start_tools : StartTools ℕ
start_tools = record {
  config = tools;
  accounts = accounts;
  hasher = record { new = 0; update = λ h bytes. h; finalize = λ h. [] };
  install_tracer = λ cfg. ok 1;
  install_logger = λ cfg. ok 2;
  subscribed = false;
  set_buckets = λ suffix bounds. ok tt;
  install_recorder = λ u. ok tt;
  connect = λ cfg. ok tt;
  migrate = ok tt;
  migrate_sessions = ok tt;
  redis_config = λ url. ok url;
  redis_pool = λ cfg size. err [];
  load_locales = λ path. ok (record { try_lookup_complete = λ l id args. some id });
  static_node = λ path. Node.dir end;
  take_listener = ok no_socket;
  set_nonblocking = λ s. ok tt;
  from_std = λ s. ok s;
  bind = λ addr. ok addr;
}

abbrev machine : Machine
machine = record { env = env; db = db; migrated = false; sessions_migrated = false }

abbrev started : Running
started = record {
  config = accepted;
  guard = record { tracer_provider = none; logger_provider = none };
  state = record {
    config = accepted;
    cache = record { pool = false; default_ttl = 300 };
    assets = hashed (codes "static") [];
    debug = false;
  };
  locales = record { try_lookup_complete = λ l id args. some id };
  limiter = login_limiter accepted;
  session = record {
    secure = false;
    http_only = true;
    same_site_lax = true;
    inactivity_secs = pos (60 * 60 * 24 * 30);
    domain = none;
    signing_key = long_key;
  };
  listener = codes "0.0.0.0:" ++ (3000 ∷ []);
}

start_sound_example :
    Checked tools started.config
    × Migrated (record machine { migrated = true; sessions_migrated = true })
    × Protected started
unfolding start read_environment from_env read_config read_server read_database read_cache read_auth
    read_observability read_dev get_text get_bool get_number get_signed setting overrides
    default_setting check_config decoded_session_key socket_addr text_eq init_tracing trace_logs
    install_metrics_recorder open_storage build_pool run_migrations run_session_migrations
    open_state build_redis_pool start_cache new start_assets production walk_root walk_files
    dev_user ensure_dev_user enabled_email trim trim_start trim_end open_server session_layer listen
start_sound_example =
    start_sound start_tools false (record { now = 3; fresh = 12; salt = 0 }) [] machine
      (record machine { migrated = true; sessions_migrated = true }) started refl
