-- ===== src/App/Routes/Todos/Writes.antt =====
-- The handlers that write, and the cached list of the user.
use todo_rust.Prelude.{List-cases, ap, arith, inl, inr, none_ne_some, some, sym, true, ℕ, ◌∙◌, ◌≡◌}
use todo_rust.App.Cache.{invalidate, is_enabled}
use todo_rust.App.Http.{Response}
use todo_rust.App.Render.{render_template, require_user, say_errors, session_user}
use todo_rust.App.Routes.Todos.{create, delete, reject_invalid, render_todo, toggle}
use todo_rust.App.State.{AppState, invalidate_todos_cache, todos_cache_key}
use todo_rust.App.State.Coherence.{Coherent, KeepsTexts}
use todo_rust.App.World.{Ambient, External, Handler, RequestContext, RoundTrips, World}
use todo_rust.Domain.{NewTodo, TodoId, User}
use todo_rust.Domain.Validation.{validate_new_todo}
use todo_rust.Prelude.Exec.{ok}

-- A request that changes the todos of its user.
pub data Write : Type 0 where
  create_write : NewTodo → Write
  toggle_write : TodoId → Write
  delete_write : TodoId → Write

module _ {R S : Type 0} (x : External R S) where
  -- The handler of a write.
  unfoldable pub answer : AppState → Ambient → RequestContext → Write → Handler R S Response
  answer state ambient request (create_write new) = create x state ambient request new
  answer state ambient request (toggle_write id) = toggle x state ambient request id
  answer state ambient request (delete_write id) = delete x state ambient id

  -- The cache server behind a write that was answered: one deletion of the user's key.
  answer-redis :
      (state : AppState) (ambient : Ambient) (request : RequestContext) (write : Write)
      (user : User) (w : World R S) (r : Response)
      → state.cache.pool ≡ true
      → w.auth.user ≡ some user
      → (answer state ambient request write w).0 ≡ ok r
      → (answer state ambient request write w).1.redis
        ≡ (x.redis.del ambient.now (todos_cache_key x user.id) w.redis).1
  unfolding answer
  answer-redis state ambient request (create_write new) user w r on h k =
      elim (List-cases (validate_new_todo x.validator new)) [
        | inl valid ↦
            unfold create require_user session_user reject_invalid render_todo render_template
              invalidate_todos_cache is_enabled invalidate in
            ground arith
        | inr (e, errs, invalid) ↦
            absurd
              (unfold create require_user session_user reject_invalid say_errors in ground arith)
      ]
  answer-redis state ambient request (toggle_write id) user w r on h k =
      unfold toggle require_user session_user render_todo render_template invalidate_todos_cache
        is_enabled invalidate in
      ground arith
  answer-redis state ambient request (delete_write id) user w r on h k =
      unfold delete require_user invalidate_todos_cache is_enabled invalidate in ground arith

  -- With a cache that is on, after a write of a user that was answered and a deletion that the
  -- server acknowledged, every text under the user's key is the list of the database.
  pub answer-Coherent :
      (laws : KeepsTexts x.redis) (trips : RoundTrips x.codec) (state : AppState)
      (ambient : Ambient) (request : RequestContext) (write : Write) (user : User) (w : World R S)
      (r : Response) (n : ℕ)
      → state.cache.pool ≡ true
      → w.auth.user ≡ some user
      → (x.redis.del ambient.now (todos_cache_key x user.id) w.redis).0 ≡ ok n
      → (answer state ambient request write w).0 ≡ ok r
      → Coherent x laws trips user.id (answer state ambient request write w).1
  unfolding Coherent
  answer-Coherent laws trips state ambient request write user w r n on h acked k =
      let gone = laws.del_removes ambient.now (todos_cache_key x user.id) n w.redis acked in
      let same = answer-redis state ambient request write user w r on h k in
      λ raw e. absurd (
        none_ne_some
          (sym gone ∙ (ap (λ q. laws.content q (todos_cache_key x user.id)) (sym same) ∙ e)))
