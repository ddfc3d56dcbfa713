-- ===== src/App/Routes/Auth/Signin.antt =====
-- Who is in the session after the login form.
use todo_rust.Prelude.{List-cases, Option-cases, ap, arith, inl, inr, some, sym, ◌∙◌, ◌∷◌, ◌≡◌, ◌⊎◌}
use todo_rust.App.Http.{Headers}
use todo_rust.App.Render.{authenticate, render_template, say, say_errors}
use todo_rust.App.Routes.Auth.{
  login, login_accepted, login_invalid, login_rejected, render_login_form,
}
use todo_rust.App.State.{AppState}
use todo_rust.App.World.{External, KeepsSessions, RequestContext, World}
use todo_rust.Domain.{Credentials, User}
use todo_rust.Domain.Validation.{ValidationErrors, validate_credentials}
use todo_rust.Prelude.Exec.{Result-cases, ok}
use todo_rust.Storage.UserRepo.{verify}
use todo_rust.Storage.UserRepo.Signin.{SignedIn, verify_sound}

module _ {R S : Type 0} (x : External R S) (laws : KeepsSessions x.sessions) where
  -- A rejected form leaves the session alone.
  login_invalid-auth :
      (state : AppState) (ctx : RequestContext) (creds : Credentials) (errs : ValidationErrors)
      (w : World R S)
      → (login_invalid x state ctx creds errs w).1.auth ≡ w.auth
  unfolding login_invalid render_login_form render_template say_errors
  login_invalid-auth state ctx creds errs w = ground arith

  login_rejected-auth :
      (state : AppState) (ctx : RequestContext) (creds : Credentials) (w : World R S)
      → (login_rejected x state ctx creds w).1.auth ≡ w.auth
  unfolding login_rejected render_login_form render_template say
  login_rejected-auth state ctx creds w = ground arith

  login_accepted-auth :
      (headers : Headers) (creds : Credentials) (user : User) (w : World R S)
      → ((login_accepted x headers creds user w).1.auth ≡ w.auth)
        ⊎ ((login_accepted x headers creds user w).1.auth.user ≡ some user)
  unfolding login_accepted
  login_accepted-auth headers creds user w = elim (Result-cases (x.sessions.login user w.auth)) [
    | inl (a, e) ↦ inr (ground (arith, laws.user-login user w.auth a e))
    | inr (m, e) ↦ inl (ground arith)
  ]

  login-auth :
      (state : AppState) (headers : Headers) (ctx : RequestContext) (creds : Credentials)
      (w : World R S)
      → ((login x state headers ctx creds w).1.auth ≡ w.auth)
        ⊎ ((u : User) × ((verify x.accounts creds.email creds.password w.db).0 ≡ ok (some u))
            × ((login x state headers ctx creds w).1.auth.user ≡ some u))
  login-auth state headers ctx creds w =
      elim (List-cases (validate_credentials x.validator creds)) [
        | inr (e, errs, invalid) ↦
            inl (unfold login in ground (arith, login_invalid-auth state ctx creds (e ∷ errs) w))
        | inl valid ↦ elim (Result-cases (verify x.accounts creds.email creds.password w.db).0) [
          | inr (e, failed) ↦ inl (unfold login authenticate in ground arith)
          | inl (found, answered) ↦ elim (Option-cases found) [
            | inl nobody ↦ inl (
                unfold login authenticate in
                ground (
                  arith,
                  login_rejected-auth state ctx creds
                      (record w { db = (verify x.accounts creds.email creds.password w.db).1 }),
                ))
            | inr (u, good) ↦
                unfold login authenticate in
                ground (
                  arith,
                  login_accepted-auth headers creds u
                      (record w { db = (verify x.accounts creds.email creds.password w.db).1 }),
                )
          ]
        ]
      ]

  -- A user who is in the session after the login form was there before, or the address of the form
  -- found the user's row and the password was accepted against its hash.
  pub login_sound :
      (state : AppState) (headers : Headers) (ctx : RequestContext) (creds : Credentials)
      (w : World R S) (user : User)
      → (login x state headers ctx creds w).1.auth.user ≡ some user
      → (w.auth.user ≡ some user) ⊎ SignedIn x.accounts creds.email creds.password w.db.tables user
  login_sound state headers ctx creds w user h = elim (login-auth state headers ctx creds w) [
    | inl same ↦ inl (ap (λ a. a.user) (sym same) ∙ h)
    | inr (u, good, now) ↦
        let e : u ≡ user = cc in
        inr (verify_sound x.accounts creds.email creds.password w.db user (rw (← e) good))
  ]
