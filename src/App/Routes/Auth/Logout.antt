-- ===== src/App/Routes/Auth/Logout.antt =====
-- The session after a logout.
use todo_rust.Prelude.{arith, inl, inr, none, ◌++◌, ◌≡◌, ◌⊎◌}
use todo_rust.App.Error.{AppError, internal}
use todo_rust.App.Http.{Headers, Response}
use todo_rust.App.Routes.Auth.{logout, redirect_after_form}
use todo_rust.App.World.{External, KeepsSessions, World}
use todo_rust.Prelude.Exec.{Result-cases, err, ok}
use todo_rust.Text.{codes}

module _ {R S : Type 0} (x : External R S) (laws : KeepsSessions x.sessions) where
  -- A logout is answered and leaves no user in the session and all else as it was, or it fails and
  -- changes nothing.
  pub logout_lem :
      (headers : Headers) (w : World R S)
      → ((r : Response) × ((logout x headers w).0 ≡ ok r)
          × ((logout x headers w).1.auth.user ≡ none)
          × (record (logout x headers w).1 { auth = w.auth } ≡ w))
        ⊎ ((e : AppError) × (logout x headers w ≡ (err e, w)))
  unfolding logout
  logout_lem headers w = elim (Result-cases (x.sessions.logout w.auth)) [
    | inl (a, e) ↦
        let gone = laws.user-logout w.auth a e in
        inl (
          redirect_after_form x headers (codes "/login"),
          ground arith,
          ground (arith, gone),
          ground arith,
        )
    | inr (m, e) ↦ inr (internal (codes "logout failed: " ++ m), ground arith)
  ]
