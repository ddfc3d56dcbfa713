-- ===== src/App/Routes/Pages.antt =====
-- crates/app/src/routes/pages.rs: the index, or the way to the login form.
use todo_rust.Prelude.{[], none, some, ◌∷◌}
use todo_rust.App.Error.{from_storage}
use todo_rust.App.Http.{Response, html_response}
use todo_rust.App.Render.{base_context, override_from_profile, render_template}
use todo_rust.App.State.{AppState, list_todos_cached}
use todo_rust.App.World.{Ambient, External, Handler, RequestContext, a_user, todo_list}
use todo_rust.Domain.{User}
use todo_rust.Prelude.Exec.{map_err, ok, pure, ◌>>=◌}
use todo_rust.Text.{codes}

module _ {R S : Type 0} (x : External R S) where
  unfoldable pub index_of : AppState → Ambient → RequestContext → User → Handler R S Response
  unfolding render_template
  index_of state ambient request user = do
    let ctx = override_from_profile x user request
    todos ← map_err (from_storage x.display_sqlx) (list_todos_cached x state ambient.now user.id)
    html ←
        render_template x (codes "index.html")
          ((codes "user", a_user user) ∷ (codes "todos", todo_list todos) ∷ base_context ctx)
    pure (html_response 200 [] html)

  unfoldable pub index : AppState → Ambient → RequestContext → Handler R S Response
  unfolding index_of
  index state ambient request w = elim w.auth.user [
    | none ↦ (ok (x.http.redirect_to (codes "/login")), w)
    | some user ↦ index_of state ambient request user w
  ]
