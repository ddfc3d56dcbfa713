-- ===== src/App/Changes/Handlers.antt =====
-- The change that each handler makes (crates/app/src/routes).
use todo_rust.Storage.TodoRepo
use todo_rust.App.Routes.Todos
use todo_rust.Prelude.{List-cases, Option, Option-cases, [], arith, inl, inr, some, ℕ, ◌≡◌, ◌⊎◌}
use todo_rust.App.Cache.{get, get_or_compute, invalidate, is_enabled, put}
use todo_rust.App.Changes.{Change, todo_change, unchanged}
use todo_rust.App.Http.{Response, html_response}
use todo_rust.App.Render.{
  override_from_profile, render_template, require_user, say_errors, session_user,
}
use todo_rust.App.Routes.Pages.{index, index_of}
use todo_rust.App.Routes.Todos.{reject_invalid, render_todo}
use todo_rust.App.State.{AppState, invalidate_todos_cache, list_todos_cached, todos_cache_key}
use todo_rust.App.State.Coherence.{get-db, list_for_user_outcome}
use todo_rust.App.World.{Ambient, External, Handler, RequestContext, World, count}
use todo_rust.Domain.{NewTodo, Time, Todo, TodoId, User, UserId}
use todo_rust.Domain.Validation.{validate_new_todo}
use todo_rust.Metrics.{Metric, todos_created_total, todos_toggled_total}
use todo_rust.Prelude.Exec.{Result-cases, modify, pure, ◌>>=◌, ◌>>◌}
use todo_rust.Storage.{Database}
use todo_rust.Storage.TodoRepo.Calls.{
  Call, create_call, delete_call, perform, perform-tables, toggle_call,
}
use todo_rust.Storage.UserRepo.{Accounts}

-- What a call of the repository of todos does.
pub Change-call :
    (x : Accounts) (user : Option User) (u : User) (c : Call) (db : Database)
    → user ≡ some u
    → Change x user db.tables (perform u.id c db).tables
Change-call x user u c db h = elim (perform-tables u.id c db) [
  | inl same ↦ unchanged same
  | inr next ↦ todo_change u c h next
]

module _ {R S : Type 0} (x : External R S) where
  -- A handler that does at most one call for the user of the session.
  unfoldable pub DoesCall : Handler R S Response → (UserId → Call) → Type 0
  DoesCall handler call =
      (w : World R S)
      → ((handler w).1.db ≡ w.db)
        ⊎ ((u : User) × (w.auth.user ≡ some u) × ((handler w).1.db ≡ perform u.id (call u.id) w.db))

  invalidate_todos_cache-db :
      (state : AppState) (now : Time) (user : UserId) (w : World R S)
      → (invalidate_todos_cache x state now user w).db ≡ w.db
  invalidate_todos_cache-db state now user w =
      unfold invalidate_todos_cache is_enabled invalidate in ground arith

  -- What a handler does behind its call, with the todo that it shows.
  shown-db :
      (state : AppState) (now : Time) (user : UserId) (m : Metric) (ctx : RequestContext)
      (todo : Todo) (status : ℕ) (w : World R S)
      → ((do
        modify (invalidate_todos_cache x state now user)
        count m
        html ← render_todo x ctx todo
        pure (html_response status [] html))
          w).1.db
        ≡ w.db
  unfolding render_todo render_template
  shown-db state now user m ctx todo status w =
      ground (arith, invalidate_todos_cache-db state now user w)

  pub create-db :
      (state : AppState) (ambient : Ambient) (ctx : RequestContext) (new : NewTodo)
      → DoesCall
          (Todos.create x state ambient ctx new)
          (λ u. create_call ambient.now (record { uuid = ambient.fresh }) new)
  unfolding DoesCall perform
  create-db state ambient ctx new w = elim (Option-cases w.auth.user) [
    | inl out ↦ inl (unfold Todos.create require_user in ground arith)
    | inr (u, e) ↦ elim (List-cases (validate_new_todo x.validator new)) [
      | inr (er, errs, invalid) ↦
          inl (
            unfold Todos.create require_user session_user reject_invalid say_errors in ground arith)
      | inl valid ↦
          let call = TodoRepo.create ambient.now (record { uuid = ambient.fresh }) u.id new w.db in
          let mid = record w { db = call.1 } in
          let shown = override_from_profile x u ctx in
          elim (Result-cases call.0) [
            | inr (er, failed) ↦
                inr (
                  u,
                  e,
                  unfold Todos.create require_user session_user reject_invalid in ground arith,
                )
            | inl (todo, made) ↦
                let tail = shown-db state ambient.now u.id todos_created_total shown todo 201 mid in
                inr (
                  u,
                  e,
                  unfold Todos.create require_user session_user reject_invalid in
                      ground (arith, tail),
                )
          ]
    ]
  ]

  pub toggle-db :
      (state : AppState) (ambient : Ambient) (ctx : RequestContext) (id : TodoId)
      → DoesCall (Todos.toggle x state ambient ctx id) (λ u. toggle_call ambient.now id)
  unfolding DoesCall perform
  toggle-db state ambient ctx id w = elim (Option-cases w.auth.user) [
    | inl out ↦ inl (unfold Todos.toggle require_user in ground arith)
    | inr (u, e) ↦
        let call = TodoRepo.toggle ambient.now u.id id w.db in
        let mid = record w { db = call.1 } in
        let shown = override_from_profile x u ctx in
        elim (Result-cases call.0) [
          | inr (er, failed) ↦
              inr (u, e, unfold Todos.toggle require_user session_user in ground arith)
          | inl (todo, made) ↦
              let tail = shown-db state ambient.now u.id todos_toggled_total shown todo 200 mid in
              inr (u, e, unfold Todos.toggle require_user session_user in ground (arith, tail))
        ]
  ]

  pub delete-db :
      (state : AppState) (ambient : Ambient) (id : TodoId)
      → DoesCall (Todos.delete x state ambient id) (λ u. delete_call id)
  unfolding DoesCall perform
  delete-db state ambient id w = elim (Option-cases w.auth.user) [
    | inl out ↦ inl (unfold Todos.delete require_user in ground arith)
    | inr (u, e) ↦
        let call = TodoRepo.delete u.id id w.db in
        let gone = invalidate_todos_cache-db state ambient.now u.id (record w { db = call.1 }) in
        inr (u, e, unfold Todos.delete require_user in ground (arith, gone))
  ]

  -- The tables behind a list that may come from the cache.
  list_todos_cached-tables :
      (state : AppState) (now : Time) (user : UserId) (w : World R S)
      → (list_todos_cached x state now user w).1.db.tables ≡ w.db.tables
  list_todos_cached-tables state now user w =
      let read = get x.redis x.codec state.cache now (todos_cache_key x user) w in
      let same = get-db x state.cache now (todos_cache_key x user) w in
      let here = (list_for_user_outcome user w.db).1 in
      let there = (list_for_user_outcome user read.1.db).1 in
      unfold list_todos_cached is_enabled get_or_compute put in ground (arith, same, here, there)

  pub list-tables :
      (state : AppState) (ambient : Ambient) (ctx : RequestContext) (w : World R S)
      → (Todos.list x state ambient ctx w).1.db.tables ≡ w.db.tables
  list-tables state ambient ctx w = elim (Option-cases w.auth.user) [
    | inl out ↦ unfold Todos.list require_user in ground arith
    | inr (u, e) ↦
        let same = list_todos_cached-tables state ambient.now u.id w in
        unfold Todos.list require_user session_user render_template in ground (arith, same)
  ]

  pub index-tables :
      (state : AppState) (ambient : Ambient) (ctx : RequestContext) (w : World R S)
      → (index x state ambient ctx w).1.db.tables ≡ w.db.tables
  index-tables state ambient ctx w = elim (Option-cases w.auth.user) [
    | inl out ↦ unfold index in ground arith
    | inr (u, e) ↦
        let same = list_todos_cached-tables state ambient.now u.id w in
        unfold index index_of render_template in ground (arith, same)
  ]
