-- ===== src/App/Changes/Isolation.antt =====
-- The pages and the todos of the other users (crates/app/src/router.rs and its handlers).
use todo_rust.Prelude.{List, some, ◌≡◌, ◌≢◌}
use todo_rust.App.Changes.Invariants.{Change-owned, owned}
use todo_rust.App.Changes.Pages.{Changes, run_page-Changes}
use todo_rust.App.Preview.Routes.{PreviewFiles}
use todo_rust.App.Router.{Page}
use todo_rust.App.Router.Pages.{Arrival, Extractors, Request, run_page}
use todo_rust.App.State.{AppState}
use todo_rust.App.World.{External, RequestContext, World}
use todo_rust.Domain.{User, UserId}
use todo_rust.Text.{Text}

module _ {R S : Type 0} (x : External R S) where
  -- Whichever page is requested, with whatever form, path and headers, and whatever the network
  -- does: the todos of a user who is not the user of the session stay as they are.
  pub run_page-owned :
      (ex : Extractors) (files : PreviewFiles) (state : AppState) (arrival : Arrival)
      (req : Request) (ctx : RequestContext) (captures : List Text) (page : Page) (w : World R S)
      (another : UserId)
      → ((u : User) → w.auth.user ≡ some u → u.id.uuid ≢ another.uuid)
      → owned another (run_page x ex files state arrival req ctx captures page w).1.db.tables.todos
        ≡ owned another w.db.tables.todos
  unfolding Changes
  run_page-owned ex files state arrival req ctx captures page w another h =
      Change-owned x.accounts w.auth.user w.db.tables _ another h
        (run_page-Changes x ex files state arrival req ctx captures page w)
