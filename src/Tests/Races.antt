-- ===== src/Tests/Races.antt =====
-- Two requests at once, over a cache server with one place whose text runs out.
use todo_rust.Prelude.{Option, [], arith, if◌then◌else◌, ltb, none, refl, some, ◌&&◌, ◌+◌, ◌∷◌, ◌≡◌}
use todo_rust.App.Cache.{get, get_or_compute, read_answer}
use todo_rust.App.Cache.Reads.{ExpiresTexts, get_or_compute-again}
use todo_rust.App.World.{External, RedisClient, World, on_db}
use todo_rust.Domain.{Time}
use todo_rust.Prelude.Exec.{ok, raise}
use todo_rust.Storage.{not_found, run_sql}
use todo_rust.Storage.TodoRepo.{insert_row, list_for_user, order_rows, row_to_todo, select_owned}
use todo_rust.Storage.UserRepo.{row_to_user}
use todo_rust.Tests.Cached.{codec-laws, external_with, milk_list, state}
use todo_rust.Tests.Fixtures.{account, alice, db}
use todo_rust.Text.{Text, codes, text_eq}
use todo_rust.Text.Laws.{text_eq_refl}

-- The key, the text, and when it runs out.
abbrev Place : Type 0
Place = Option (Text × Text × Time)

abbrev look_up : Time → Text → Place → Option Text
look_up now key none = none
look_up now key (some (k, value, stop)) = if text_eq k key && ltb now stop then some value else none

abbrev place : RedisClient Place
place = record {
  get = λ now key r. (ok (look_up now key r), r);
  set = λ now key value ttl r. (ok tt, some (key, value, now + ttl));
  del = λ now key r. (ok 1, none);
}

place-ExpiresTexts : ExpiresTexts place
place-ExpiresTexts = record {
  fresh = λ now later key value ttl r h order soon. ground (arith, text_eq_refl key);
  expired = λ now later key value ttl r h late. ground (arith, text_eq_refl key);
}

abbrev racing : External Place (Unit {0})
racing = external_with place

abbrev racing_world : World Place (Unit {0})
racing_world = record {
  db = db;
  redis = none;
  auth = record {
    user = some (row_to_user (account 1 (codes "a@b") (codes "secret")));
    store = tt;
  };
  metrics = [];
}

-- The text of the list of the first user.
abbrev milk_text : Text
milk_text = 10 ∷ 1 ∷ 0 ∷ 10 ∷ 10 ∷ codes "milk"

-- The second computation would fail.
get_or_compute-again_example :
    ((get_or_compute place racing.codec state.cache 3
        (codes "k")
        (some 60)
        (on_db (list_for_user alice))
        racing_world).0
      ≡ ok milk_list)
    × ((get_or_compute place racing.codec state.cache 10
          (codes "k")
          none
          (on_db (raise not_found))
          (get_or_compute place racing.codec state.cache 3
            (codes "k")
            (some 60)
            (on_db (list_for_user alice))
            racing_world).1).0
        ≡ ok milk_list)
unfolding get read_answer list_for_user run_sql select_owned order_rows insert_row row_to_todo
get_or_compute-again_example =
    get_or_compute-again place racing.codec place-ExpiresTexts codec-laws state.cache 3 10
      (codes "k") (some 60) none (on_db (list_for_user alice)) (on_db (raise not_found)) milk_list
      milk_text racing_world refl (λ v c. absurd (ground (arith, c.answered))) refl refl refl
      (omega arith) (omega arith)
