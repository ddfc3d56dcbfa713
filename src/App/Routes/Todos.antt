-- ===== src/App/Routes/Todos.antt =====
-- crates/app/src/routes/todos.rs: the list, and the handlers that create, toggle and delete.
pub mod Writes
use todo_rust.Storage.TodoRepo
use todo_rust.Prelude.{[], ◌∷◌}
use todo_rust.App.Cache.{new}
use todo_rust.App.Error.{from_storage, validation}
use todo_rust.App.Http.{Response, empty_response, html_response}
use todo_rust.App.Render.{
  base_context, override_from_profile, render_template, require_user, say_errors, session_user,
}
use todo_rust.App.State.{AppState, invalidate_todos_cache, list_todos_cached}
use todo_rust.App.World.{
  Ambient, External, Handler, RequestContext, a_todo, count, on_db?, todo_list,
}
use todo_rust.Domain.{NewTodo, Todo, TodoId}
use todo_rust.Domain.Validation.{ValidationErrors, validate_new_todo}
use todo_rust.Metrics.{todos_created_total, todos_deleted_total, todos_toggled_total}
use todo_rust.Prelude.Exec.{map_err, modify, pure, raise, ◌>>=◌, ◌>>◌}
use todo_rust.Text.{Text, codes}

module _ {R S : Type 0} (x : External R S) where
  unfoldable pub list : AppState → Ambient → RequestContext → Handler R S Response
  unfolding require_user session_user render_template
  list state ambient request = do
    user_id ← require_user x
    user ← session_user x
    let ctx = override_from_profile x user request
    todos ← map_err (from_storage x.display_sqlx) (list_todos_cached x state ambient.now user_id)
    html ←
        render_template x (codes "partials/todo_list.html")
          ((codes "todos", todo_list todos) ∷ base_context ctx)
    pure (html_response 200 [] html)

  -- `if let Err(errs) = new.validate()`
  unfoldable pub reject_invalid : RequestContext → ValidationErrors → Handler R S (Unit {0})
  reject_invalid ctx [] = pure tt
  reject_invalid ctx (e ∷ errs) = do
    msg ← say_errors x ctx.locale (e ∷ errs)
    raise (validation msg)

  unfoldable pub render_todo : RequestContext → Todo → Handler R S Text
  unfolding render_template
  render_todo ctx todo =
      render_template x (codes "partials/todo.html")
        ((codes "todo", a_todo todo) ∷ base_context ctx)

  unfoldable pub create : AppState → Ambient → RequestContext → NewTodo → Handler R S Response
  unfolding require_user session_user reject_invalid render_todo
  create state ambient request new = do
    user_id ← require_user x
    user ← session_user x
    let ctx = override_from_profile x user request
    reject_invalid ctx (validate_new_todo x.validator new)
    todo ← on_db? x (TodoRepo.create ambient.now (record { uuid = ambient.fresh }) user_id new)
    modify (invalidate_todos_cache x state ambient.now user_id)
    count todos_created_total
    html ← render_todo ctx todo
    pure (html_response 201 [] html)

  unfoldable pub toggle : AppState → Ambient → RequestContext → TodoId → Handler R S Response
  unfolding require_user session_user render_todo
  toggle state ambient request id = do
    user_id ← require_user x
    user ← session_user x
    let ctx = override_from_profile x user request
    todo ← on_db? x (TodoRepo.toggle ambient.now user_id id)
    modify (invalidate_todos_cache x state ambient.now user_id)
    count todos_toggled_total
    html ← render_todo ctx todo
    pure (html_response 200 [] html)

  unfoldable pub delete : AppState → Ambient → TodoId → Handler R S Response
  unfolding require_user
  delete state ambient id = do
    user_id ← require_user x
    on_db? x (TodoRepo.delete user_id id)
    modify (invalidate_todos_cache x state ambient.now user_id)
    count todos_deleted_total
    pure (empty_response 200)
