-- ===== src/App/Routes/Auth/Guards.antt =====
-- The handlers of the todos, and the session.
use todo_rust.App.Routes.Todos
use todo_rust.Prelude.{arith, none, ◌≡◌}
use todo_rust.App.Error.{unauthorized}
use todo_rust.App.Render.{require_user}
use todo_rust.App.State.{AppState}
use todo_rust.App.World.{Ambient, External, RequestContext, World}
use todo_rust.Domain.{NewTodo, TodoId}
use todo_rust.Prelude.Exec.{err}

module _ {R S : Type 0} (x : External R S) where
  -- Without a user in the session the four handlers of the todos fail as unauthorized, and change
  -- nothing.
  pub todos_unauthorized :
      (state : AppState) (ambient : Ambient) (request : RequestContext) (new : NewTodo)
      (id : TodoId) (w : World R S)
      → w.auth.user ≡ none
      → (Todos.list x state ambient request w ≡ (err unauthorized, w))
        × (Todos.create x state ambient request new w ≡ (err unauthorized, w))
        × (Todos.toggle x state ambient request id w ≡ (err unauthorized, w))
        × (Todos.delete x state ambient id w ≡ (err unauthorized, w))
  todos_unauthorized state ambient request new id w h = (
    unfold Todos.list require_user in ground arith,
    unfold Todos.create require_user in ground arith,
    unfold Todos.toggle require_user in ground arith,
    unfold Todos.delete require_user in ground arith,
  )
