-- ===== src/App/State.antt =====
-- crates/app/src/state.rs: the state that the handlers share, and the cached list of a user's todos.
pub mod Coherence
pub mod Staleness
use todo_rust.Prelude.{Bool, List, if◌then◌else◌, not, some, ◌++◌}
use todo_rust.App.Cache.{Cache, get_or_compute, invalidate, is_enabled}
use todo_rust.App.Config.{Config}
use todo_rust.App.World.{External, World, on_db}
use todo_rust.Assets.{Assets}
use todo_rust.Domain.{Time, Todo, UserId}
use todo_rust.Prelude.Exec.{Exec}
use todo_rust.Storage.{StorageError}
use todo_rust.Storage.TodoRepo.{list_for_user}
use todo_rust.Text.{Text, codes}

-- The fields that differ between runs; the repositories are functions on the database.
pub record AppState : Type 0 where
  pub config : Config
  pub cache : Cache
  pub assets : Assets
  -- `cfg!(debug_assertions)`
  pub debug : Bool

module _ {R S : Type 0} (x : External R S) where
  unfoldable pub todos_cache_key : UserId → Text
  todos_cache_key user = codes "todos:user:" ++ x.display_uuid user.uuid

  unfoldable pub list_todos_cached :
      AppState → Time → UserId → Exec StorageError (World R S) (List Todo)
  list_todos_cached state now user =
      if not (is_enabled state.cache)
      then on_db (list_for_user user)
      else get_or_compute x.redis x.codec state.cache now (todos_cache_key user) (some 60)
          (on_db (list_for_user user))

  unfoldable pub invalidate_todos_cache : AppState → Time → UserId → World R S → World R S
  invalidate_todos_cache state now user w =
      if not (is_enabled state.cache)
      then w
      else invalidate x.redis state.cache now (todos_cache_key user) w
