-- ===== src/App/Changes/Pages.antt =====
-- The change that a request of a page makes (crates/app/src/router.rs), whatever axum extracts.
use todo_rust.App.Routes.Auth
use todo_rust.App.Routes.Todos
use todo_rust.Prelude.{List, ap, arith, inl, inr, refl, ◌≡◌}
use todo_rust.App.Changes.{Change, unchanged}
use todo_rust.App.Changes.Handlers.{
  Change-call, DoesCall, create-db, delete-db, index-tables, list-tables, toggle-db,
}
use todo_rust.App.Changes.Sessions.{
  auto_login-tables, login-tables, login_form-db, logout-db, signup-Change, signup_form-db,
  update_locale-Change,
}
use todo_rust.App.Http.{Response}
use todo_rust.App.Preview.Routes.{
  PreviewFiles, PreviewQuery, check_enabled, preview_body, preview_index, preview_render, wrap,
}
use todo_rust.App.Render.{render_template}
use todo_rust.App.Router.{
  Page, create_action, delete_action, dev_login_action, index_page, locale_action, login_action,
  login_page, logout_action, preview_index_page, preview_story_page, signup_action, signup_page,
  todo_list_page, toggle_action,
}
use todo_rust.App.Router.Pages.{Answer, Arrival, Extractors, Request, answered, extracted, run_page}
use todo_rust.App.Routes.Pages.{index}
use todo_rust.App.Routes.Preferences.{update_locale}
use todo_rust.App.State.{AppState}
use todo_rust.App.World.{External, Handler, RequestContext, World}
use todo_rust.Domain.{UserId}
use todo_rust.Observability.Stack.{run}
use todo_rust.Prelude.Exec.{Result, err, ok}
use todo_rust.Storage.TodoRepo.Calls.{Call, create_call, delete_call, toggle_call}
use todo_rust.Text.{Text}

module _ {R S : Type 0} (x : External R S) where
  -- What a service may do to the tables for the user of the session.
  unfoldable pub Changes : Answer R S → Type 0
  Changes run = (w : World R S) → Change x.accounts w.auth.user w.db.tables (run w).1.db.tables

  answered-Changes :
      (handler : Handler R S Response)
      → ((w : World R S) → Change x.accounts w.auth.user w.db.tables (handler w).1.db.tables)
      → Changes (answered handler)
  unfolding answered Changes
  answered-Changes handler h w = h w

  answered_reads :
      (handler : Handler R S Response)
      → ((w : World R S) → (handler w).1.db.tables ≡ w.db.tables)
      → Changes (answered handler)
  answered_reads handler h = answered-Changes handler (λ w. unchanged (h w))

  answered_db :
      (handler : Handler R S Response)
      → ((w : World R S) → (handler w).1.db ≡ w.db)
      → Changes (answered handler)
  answered_db handler h = answered_reads handler (λ w. ap (λ d. d.tables) (h w))

  answered_calls :
      (handler : Handler R S Response) (call : UserId → Call)
      → DoesCall x handler call
      → Changes (answered handler)
  unfolding DoesCall
  answered_calls handler call h = answered-Changes handler (λ w. elim (h w) [
    | inl same ↦ unchanged (ap (λ d. d.tables) same)
    | inr (u, e, next) ↦ rw next (Change-call x.accounts w.auth.user u (call u.id) w.db e)
  ])

  extracted-Changes :
      {A : Type 0} (r : Result Response A) (k : A → Answer R S)
      → ((a : A) → Changes (k a))
      → Changes (extracted r k)
  unfolding extracted Changes
  extracted-Changes (ok a) k h = h a
  extracted-Changes (err e) k h = λ w. unchanged refl

  preview_index-db :
      (state : AppState) (files : PreviewFiles) (q : PreviewQuery) (nonce : Text) (w : World R S)
      → (preview_index x state files q nonce w).1.db ≡ w.db
  unfolding preview_index check_enabled render_template
  preview_index-db state files q nonce w = ground arith

  preview_render-db :
      (state : AppState) (files : PreviewFiles) (q : PreviewQuery) (nonce path : Text)
      (w : World R S)
      → (preview_render x state files q nonce path w).1.db ≡ w.db
  unfolding preview_render check_enabled render_template preview_body wrap
  preview_render-db state files q nonce path w = ground arith

  -- A request of any page changes nothing in the tables, or makes one change: a call of the
  -- repository of todos as the user of the session, a new account, or the preferences of the user
  -- of the session.
  pub run_page-Changes :
      (ex : Extractors) (files : PreviewFiles) (state : AppState) (arrival : Arrival)
      (req : Request) (ctx : RequestContext) (captures : List Text) (page : Page)
      → Changes (run_page x ex files state arrival req ctx captures page)
  unfolding run_page
  run_page-Changes ex files state arrival req ctx captures index_page =
      answered_reads (index x state arrival.ambient ctx) (index-tables x state arrival.ambient ctx)
  run_page-Changes ex files state arrival req ctx captures logout_action =
      answered_db (Auth.logout x req.headers) (logout-db x req.headers)
  run_page-Changes ex files state arrival req ctx captures todo_list_page =
      answered_reads (Todos.list x state arrival.ambient ctx)
        (list-tables x state arrival.ambient ctx)
  run_page-Changes ex files state arrival req ctx captures create_action =
      extracted-Changes (ex.new_todo req) _ (λ new.
        answered_calls (Todos.create x state arrival.ambient ctx new)
          (λ u. create_call arrival.ambient.now (record { uuid = arrival.ambient.fresh }) new)
          (create-db x state arrival.ambient ctx new))
  run_page-Changes ex files state arrival req ctx captures toggle_action =
      extracted-Changes (ex.uuid captures) _ (λ id.
        answered_calls (Todos.toggle x state arrival.ambient ctx (record { uuid = id }))
          (λ u. toggle_call arrival.ambient.now (record { uuid = id }))
          (toggle-db x state arrival.ambient ctx (record { uuid = id })))
  run_page-Changes ex files state arrival req ctx captures delete_action =
      extracted-Changes (ex.uuid captures) _ (λ id.
        answered_calls (Todos.delete x state arrival.ambient (record { uuid = id }))
          (λ u. delete_call (record { uuid = id }))
          (delete-db x state arrival.ambient (record { uuid = id })))
  run_page-Changes ex files state arrival req ctx captures locale_action =
      extracted-Changes (ex.locale req) _ (λ locale.
        answered-Changes (update_locale x state arrival.ambient req.headers locale)
          (update_locale-Change x state arrival.ambient req.headers locale))
  run_page-Changes ex files state arrival req ctx captures login_page =
      extracted-Changes (ex.next req) _
        (λ next. answered_db (Auth.login_form x state next ctx) (login_form-db x state next ctx))
  run_page-Changes ex files state arrival req ctx captures login_action =
      extracted-Changes (ex.credentials req) _ (λ creds.
        answered_reads (Auth.login x state req.headers ctx creds)
          (login-tables x state req.headers ctx creds))
  run_page-Changes ex files state arrival req ctx captures signup_page =
      answered_db (Auth.signup_form x ctx) (signup_form-db x ctx)
  run_page-Changes ex files state arrival req ctx captures signup_action =
      extracted-Changes (ex.new_user req) _ (λ new.
        answered-Changes (Auth.signup x arrival.ambient req.headers ctx new)
          (signup-Change x arrival.ambient req.headers ctx new))
  run_page-Changes ex files state arrival req ctx captures dev_login_action =
      answered_reads (Auth.auto_login x state) (auto_login-tables x state)
  run_page-Changes ex files state arrival req ctx captures preview_index_page =
      extracted-Changes (ex.preview_query req) _ (λ q.
        answered_db (preview_index x state files q ctx.csp_nonce)
          (preview_index-db state files q ctx.csp_nonce))
  run_page-Changes ex files state arrival req ctx captures preview_story_page =
      extracted-Changes (ex.path_text captures) _ (λ path.
        extracted-Changes (ex.preview_query req) _ (λ q.
          answered_db (preview_render x state files q ctx.csp_nonce path)
            (preview_render-db state files q ctx.csp_nonce path)))
