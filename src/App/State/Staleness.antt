-- ===== src/App/State/Staleness.antt =====
-- Two requests of a user at once, and the cached list (crates/app/src/cache.rs and state.rs): one
-- finds nothing in the cache and reads the list, the other writes and deletes the cached list, and
-- then the first stores what it has read.
use todo_rust.Prelude.{List, arith, inl, inr, none, some, true, ◌≡◌}
use todo_rust.App.Cache.{get, get_or_compute, is_enabled, put}
use todo_rust.App.Routes.Todos.Writes.{Write, answer}
use todo_rust.App.State.{AppState, list_todos_cached, todos_cache_key}
use todo_rust.App.World.{Ambient, External, RequestContext, World, on_db}
use todo_rust.Domain.{Time, Todo, UserId}
use todo_rust.Prelude.Exec.{Result, Result-cases, err, ok}
use todo_rust.Storage.{StorageError}
use todo_rust.Storage.TodoRepo.{list_for_user}
use todo_rust.Text.{Text}

module _ {R S : Type 0} (x : External R S) (state : AppState) where
  -- What the first request has read, and the world then.
  unfoldable pub first_read :
      Time → UserId → World R S → Result StorageError (List Todo) × World R S
  first_read now user w =
      on_db (list_for_user user) (get x.redis x.codec state.cache now (todos_cache_key x user) w).1

  -- The world behind the write of the second.
  unfoldable pub second_write :
      Time → Ambient → RequestContext → Write → UserId → World R S → World R S
  unfolding first_read
  second_write now ambient request write user w =
      (answer x state ambient request write (first_read now user w).1).1

  -- What the first does with what it has read.
  abbrev store_read : Time → UserId → Result StorageError (List Todo) → World R S → World R S
  store_read now user (ok todos) w =
      put x.redis x.codec state.cache now (todos_cache_key x user) todos (some 60) w
  store_read now user (err e) w = w

  -- The world after both, where the first found nothing in the cache.
  unfoldable pub race : Time → Ambient → RequestContext → Write → UserId → World R S → World R S
  unfolding first_read second_write
  race now ambient request write user w =
      store_read now user (first_read now user w).0 (second_write now ambient request write user w)

  -- Without a write in between, what is read and stored is what `list_todos_cached` does.
  list_todos_cached-parts :
      (now : Time) (user : UserId) (w : World R S)
      → state.cache.pool ≡ true
      → (get x.redis x.codec state.cache now (todos_cache_key x user) w).0 ≡ none
      → list_todos_cached x state now user w ≡ (
        (first_read now user w).0,
        store_read now user (first_read now user w).0 (first_read now user w).1,
      )
  unfolding list_todos_cached is_enabled get_or_compute first_read
  list_todos_cached-parts now user w on h =
      let mid = (get x.redis x.codec state.cache now (todos_cache_key x user) w).1 in
      elim (Result-cases (list_for_user user mid.db).0) [
        | inl (todos, e) ↦ ground (arith, on, h, e)
        | inr (failed, e) ↦ ground (arith, on, h, e)
      ]
