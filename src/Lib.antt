-- ===== src/Lib.antt =====
-- A model of the todo application: a server of HTML pages over Postgres and a cache, in the crates
-- domain, storage, i18n, assets, observability and app.
--
-- Parts, and how they interact. The router (crates/app/src/router.rs) finds the route of a request,
-- which then passes the middleware (crates/app/src/middleware) that counts it, limits the login
-- form, finds its locale and sets headers, and reaches a handler (crates/app/src/routes). A handler
-- reads the session, calls a repository (crates/storage/src), reads or drops the cached list
-- (crates/app/src/state.rs over cache.rs), and renders a template with the helpers of crates/i18n
-- and crates/assets.
--
-- Files and code.
--   Domain                     crates/domain/src: types, and the checks that `Validate` derives
--   Storage                    crates/storage/src/lib.rs and migrations: tables, errors, the connection
--   Storage/TodoRepo           crates/storage/src/todo_repo.rs: `list_for_user`, `create`, `get`,
--                              `update`, `toggle`, `delete`
--   Storage/TodoRepo/Contract  what that repository promises: a book of todos by identifier, the
--                              answers and the book behind each call
--   Storage/UserRepo           crates/storage/src/user_repo.rs: `create`, `find_by_id`,
--                              `find_by_email`, `verify`, `update_preferences`
--   I18n                       crates/i18n/src: locale, tz, messages, datetime, minijinja
--   Assets, FileTree           crates/assets/src: the manifest; the file system that is walked
--   Metrics                    the counters that the crates record
--   App/Config                 crates/app/src/config.rs: settings, `from_env`
--   App/Error, App/Http        crates/app/src/error.rs; headers and responses
--   App/World                  what a handler reads and changes, and the libraries that it calls
--   App/Cache, App/State       crates/app/src/cache.rs and state.rs
--   App/Render                 crates/app/src/render.rs and auth.rs
--   App/Routes                 crates/app/src/routes
--   App/Middleware             crates/app/src/middleware
--   App/StaticFiles            crates/app/src/routes/assets.rs and the service of router.rs
--   App/Preview                crates/app/src/preview
--   App/Templates              crates/app/src/templates.rs
--   App/Router                 crates/app/src/router.rs, and `router` of preview/routes.rs and
--                              routes/health.rs: `build_router` is `serve` of App/Router/Service
--   App/Changes                what one request may change of the tables, handler by handler
--   App/Start                  crates/app/src/main.rs, crates/storage/src/pool.rs, `run_migrations` and
--                              `build_redis_pool`: `main` is `start` of App/Start/Main
--   Observability              crates/observability/src
--   Prelude, Text              shared names, actions that may fail, and operations on texts
--   Tests                      the theorems at concrete inputs
--
-- State and errors. An action is a function from a state to a result and a state (Prelude/Exec), so
-- what was written before a failure stays written. A SQL statement is a function on the tables, and a
-- `Link` says for each command whether it is answered, lost, or carried out with its answer lost. The
-- constraints of the tables are tested by the statements. A UUID and an instant are numbers; what is
-- drawn at random or read from a clock is an argument. Texts are lists of code points. What is done at
-- once is a sequence of steps: App/Router/Reachable has a step for each request, since a request
-- carries out at most one statement that changes tables, and steps for what other processes, the
-- network and the cache server do; App/State/Staleness parts the read of a list from its storing.
--
-- Libraries. What is not in the repository is a parameter: the record `External` of App/World and
-- the records beside it (`Accounts`, `RedisClient`, `LanguageTools`, `DateTimeTools`, `Hasher`,
-- `Layers`, `ConfigTools`, `Coercions`, `Files`, `Routing`, `Extractors`, `TowerLayers`,
-- `StartTools`). What a theorem needs of one is a record of laws, such as `KeepsTexts`,
-- `ExpiresTexts`, `RoundTrips`, `KeepsSessions`, `Negotiates`, `GivesBytes`, `SetsMissing`,
-- `FollowsPatterns`, `AreTransparent` and `CountsChars`.
--
-- Bounds and fuel. Recursion is structural, but for two functions with fuel: `trim_end_matches` of
-- Text takes off one end of a text in each round and has the length of the text as fuel, and
-- `unescape` reads a character in each round and has the length of what it reads. The limiter
-- counts tokens in exact parts where the program has f64, so rounding is left out. Numbers of the
-- configuration are read with the limits of their types; no other arithmetic of the program can
-- overflow at its sizes.
--
-- Not modelled: the loop that serves, timeouts, panics, sockets, signals and the shutdown, and the
-- task that removes old sessions, which are calls of the libraries; what sqlx and the exporters do;
-- the refusal by Postgres of a text with U+0000; log lines; pages, scripts, deployment and load
-- tests.
pub mod Prelude
pub mod Text
pub mod Domain
pub mod Storage
pub mod Metrics
pub mod I18n
pub mod FileTree
pub mod Assets
pub mod App
pub mod Observability
pub mod Tests
