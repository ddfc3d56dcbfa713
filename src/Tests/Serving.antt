-- ===== src/Tests/Serving.antt =====
-- The server around the fixtures: library layers that do nothing, and requests of several users.
use todo_rust.Prelude.{
  List, [], ap, arith, false, if◌then◌else◌, none, refl, some, some_inj, suc, true, zero, ℕ, ◌∷◌,
  ◌≡◌,
}
use todo_rust.App.Changes.Invariants.{owned}
use todo_rust.App.Changes.Isolation.{run_page-owned}
use todo_rust.App.Http.{Headers, Response, empty_response}
use todo_rust.App.Middleware.RateLimit.{RateLimiter, new, with_enabled}
use todo_rust.App.Middleware.RateLimit.Buckets.{Bounded}
use todo_rust.App.Middleware.Security.{Layers}
use todo_rust.App.Preview.Fixtures.{parse}
use todo_rust.App.Preview.Routes.{PreviewFiles}
use todo_rust.App.Router.{
  Route, Routing, create_action, find_route, get_method, index_page, logout_action, pages,
  post_method, routes, todo_list_page, toggle_action,
}
use todo_rust.App.Router.Invariants.{AllSound}
use todo_rust.App.Router.Limiting.{serve-limiter}
use todo_rust.App.Router.Pages.{Arrival, Extractors, Request, run_page}
use todo_rust.App.Router.Reachable.{Reach-AllSound, at_start, next_step, served}
use todo_rust.App.Router.Service.{Layer, Outside, Server, TowerLayers, serve}
use todo_rust.App.Router.Transparency.{AreTransparent, IsTransparent}
use todo_rust.App.Router.UniqueRoutes.{FollowsPatterns, find_route_unique, follows, segments}
use todo_rust.Domain.{User}
use todo_rust.FileTree.{Node}
use todo_rust.Prelude.Exec.{err, ok}
use todo_rust.Storage.TodoRepo.{title_fits}
use todo_rust.Storage.UserRepo.{row_to_user}
use todo_rust.Tests.Cached.{ambient, external, request, signed_in, state, world}
use todo_rust.Tests.Fixtures.{accounts, bob, db}
use todo_rust.Text.{Text, codes, split, text_eq}

abbrev layers : Layers
layers = record { if_not_present = λ name value r. r; encode_url_safe = λ bytes. bytes }

abbrev rejection : Response
rejection = empty_response 400

abbrev routing : Routing
routing = record {
  matches = λ nested pattern path.
      if follows (segments nested pattern) (split path b'/') then some [] else none;
  serves = λ declared asked. true;
  sent = λ asked r. r;
  below = λ path. path;
}

routing-FollowsPatterns : FollowsPatterns routing
routing-FollowsPatterns = record { matched = λ nested pattern path captures h. ground (arith, h) }

abbrev extractors : Extractors
extractors = record {
  credentials = λ req. err rejection;
  new_user = λ req. ok (record { email = codes "d@e"; password = codes "long" });
  new_todo = λ req. ok (record { title = req.body });
  locale = λ req. ok req.body;
  next = λ req. ok none;
  preview_query = λ req. err rejection;
  uuid = λ captures. ok 10;
  path_text = λ captures. err rejection;
  routing = routing;
  unmatched = empty_response 404;
  method_not_allowed = empty_response 405;
}

abbrev preview_files : PreviewFiles
preview_files = record {
  templates = Node.special;
  fixtures = λ t. none;
  template_is_file = λ t. false;
  exists = λ t. false;
  load = λ t. err (parse [] []);
}

abbrev out : Outside
out = record {
  extractors = extractors;
  layers = layers;
  preview_files = preview_files;
  files = record { is_file = λ t. false; open_file = λ t. none; mime = λ t. none };
  serve_dir = λ t. empty_response 404;
  render_metrics = λ ms. [];
  parse_ip = λ t. some 7;
  git_sha = codes "abc";
}

abbrev idle : Layer Headers (Unit {0})
idle inner = inner

abbrev tower : TowerLayers Headers (Unit {0})
tower = record {
  auth = idle;
  timeout = idle;
  compression = idle;
  trace = idle;
  normalize_path = idle;
  sensitive_headers = idle;
  catch_panic = idle;
  set_request_id = idle;
  propagate_request_id = idle;
}

idle-IsTransparent : IsTransparent idle
idle-IsTransparent = record { keeps = λ Q inner h. h }

tower-AreTransparent : AreTransparent tower
tower-AreTransparent = record {
  auth = idle-IsTransparent;
  timeout = idle-IsTransparent;
  compression = idle-IsTransparent;
  trace = idle-IsTransparent;
  normalize_path = idle-IsTransparent;
  sensitive_headers = idle-IsTransparent;
  catch_panic = idle-IsTransparent;
  set_request_id = idle-IsTransparent;
  propagate_request_id = idle-IsTransparent;
}

abbrev arrival : Arrival
arrival = record { ambient = ambient; random = []; started = 3; finished = 4; peer = some 7 }

abbrev post : Text → Text → Request
post path body = record { method = post_method; path = path; query = []; headers = []; body = body }

abbrev limiter : RateLimiter
limiter = with_enabled true (new 12 1 60)

abbrev server : Server Headers (Unit {0})
server = record { world = world; limiter = limiter }

run_page-owned_example :
    owned bob
      (run_page external extractors preview_files state arrival
        (post (codes "/todos") (codes " eggs "))
        request
        []
        create_action
        signed_in).1.db.tables.todos
    ≡ owned bob db.tables.todos
unfolding row_to_user
run_page-owned_example =
    run_page-owned external extractors preview_files state arrival
      (post (codes "/todos") (codes " eggs ")) request [] create_action signed_in bob
      (λ u h. ground (arith, ap (λ (v : User). v.id.uuid) (some_inj h)))

-- The routes before and behind those of a todo.
abbrev first_routes : List Route
first_routes =
    record { pattern = codes "/"; nested = false; target = pages ((get_method, index_page) ∷ []) }
    ∷ record {
      pattern = codes "/logout";
      nested = false;
      target = pages ((post_method, logout_action) ∷ []);
    }
    ∷ record {
      pattern = codes "/todos";
      nested = false;
      target = pages ((get_method, todo_list_page) ∷ (post_method, create_action) ∷ []);
    }
    ∷ []

abbrev toggle_route : Route
toggle_route = record {
  pattern = codes "/todos/:id/toggle";
  nested = false;
  target = pages ((post_method, toggle_action) ∷ []);
}

abbrev skip : ℕ → List Route → List Route
skip zero l = l
skip (suc n) [] = []
skip (suc n) (r ∷ l) = skip n l

find_route_unique_example :
    find_route routing (routes true) (codes "/todos/7/toggle") ≡ some (toggle_route, [])
unfolding routes segments split text_eq
find_route_unique_example =
    find_route_unique routing routing-FollowsPatterns true first_routes (skip 4 (routes true))
      toggle_route (codes "/todos/7/toggle") [] refl refl

bounded : Bounded limiter
unfolding with_enabled new
bounded = tt

server-AllSound : AllSound accounts server.world.db.tables server.limiter
unfolding title_fits
server-AllSound = (
  record {
    integrity = record {
      distinct = ((ground arith, tt), (tt, tt));
      fitting = (refl, (refl, tt));
      owned = (refl, (refl, tt));
    };
    distinct = (((λ e. absurd (ground arith)), tt), (tt, tt));
  },
  bounded,
)

Reach-AllSound_example :
    AllSound accounts
      (serve external out tower state arrival (post (codes "/signup") []) server).1.world.db.tables
      (serve external out tower state arrival (post (codes "/signup") []) server).1.limiter
Reach-AllSound_example =
    Reach-AllSound external out tower state tower-AreTransparent server _ server-AllSound
      (next_step at_start (served arrival (post (codes "/signup") []) world.auth))

serve-limiter_example :
    (serve external out tower state arrival (post (codes "/logout") []) server).1.limiter ≡ limiter
unfolding routes find_route segments split text_eq
serve-limiter_example =
    serve-limiter external out tower state tower-AreTransparent arrival (post (codes "/logout") [])
      server refl

-- A limiter whose burst is used up.
abbrev empty_limiter : RateLimiter
empty_limiter = record limiter { inner = (7, record { tokens = 0; last = 3 }) ∷ [] }

abbrev busy_server : Server Headers (Unit {0})
busy_server = record { world = world; limiter = empty_limiter }
