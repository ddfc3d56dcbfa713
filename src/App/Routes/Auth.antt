-- ===== src/App/Routes/Auth.antt =====
-- crates/app/src/routes/auth.rs and dev.rs: the login and signup forms, login, signup, logout, and
-- the login without a password of debug builds.
pub mod Logout
pub mod Signup
pub mod DevLogin
pub mod Guards
pub mod Signin
pub mod Redirects
use todo_rust.Storage.UserRepo
use todo_rust.Prelude.{
  Option, [], and_then, false, if◌then◌else◌, is_some, none, not, some, true, unwrap_or, ℕ, ◌&&◌,
  ◌++◌, ◌∷◌,
}
use todo_rust.App.Cache.{new}
use todo_rust.App.Config.{enabled_email}
use todo_rust.App.Error.{from_storage, internal, not_found}
use todo_rust.App.Http.{Headers, Response, html_response, insert_header}
use todo_rust.App.Render.{authenticate, base_context, render_template, say, say_errors}
use todo_rust.App.Routes.{is_htmx}
use todo_rust.App.State.{AppState}
use todo_rust.App.World.{
  Ambient, Context, External, Handler, RequestContext, TemplateValue, count, flag, null, on_db,
  on_db?, set_session, text,
}
use todo_rust.Domain.{Credentials, NewUser, User}
use todo_rust.Domain.Validation.{ValidationErrors, validate_credentials, validate_new_user}
use todo_rust.Metrics.{auth_logins_total, auth_signups_total}
use todo_rust.Prelude.Exec.{Result, err, ok, ok_or, pure, raise, ◌>>=◌, ◌>>◌}
use todo_rust.Storage.{StorageError, conflict}
use todo_rust.Storage.UserRepo.{find_by_email}
use todo_rust.Text.{Text, codes, starts_with}

unfoldable pub safe_next : Option Text → Option Text
safe_next raw =
    and_then raw
      (λ v. if starts_with v (codes "/") && not (starts_with v (codes "//")) then some v else none)

abbrev pub optional_text : Option Text → TemplateValue
optional_text none = null
optional_text (some s) = text s

unfoldable pub hx_full_swap : Headers
hx_full_swap = (codes "hx-retarget", codes "body") ∷ (codes "hx-reswap", codes "outerHTML") ∷ []

abbrev insert_if : Text → Option Text → Headers → Headers
insert_if name none headers = headers
insert_if name (some value) headers = insert_header name value headers

module _ {R S : Type 0} (x : External R S) where
  unfoldable pub redirect_after_form : Headers → Text → Response
  redirect_after_form headers target =
      if is_htmx headers
      then record {
        status = 200;
        headers = insert_if (codes "hx-redirect") (x.http.from_str target) [];
        body = [];
      }
      else x.http.redirect_to target

  -- The context of login.html.
  abbrev login_context : AppState → RequestContext → Option Text → Text → Context
  login_context state ctx next msg =
      (codes "next", optional_text (safe_next next))
      ∷ (codes "error", text msg)
      ∷ (codes "dev_login_enabled", flag (is_some (enabled_email state.debug state.config.dev)))
      ∷ base_context ctx

  unfoldable pub login_form : AppState → Option Text → RequestContext → Handler R S Response
  unfolding render_template
  login_form state next ctx = do
    html ← render_template x (codes "login.html") (login_context state ctx next [])
    pure (html_response 200 [] html)

  unfoldable pub render_login_form :
      AppState → RequestContext → Option Text → Text → ℕ → Handler R S Response
  unfolding render_template
  render_login_form state ctx next msg status = do
    html ← render_template x (codes "login.html") (login_context state ctx next msg)
    pure (html_response status hx_full_swap html)

  unfoldable pub render_signup_form : RequestContext → Text → ℕ → Handler R S Response
  unfolding render_template
  render_signup_form ctx msg status = do
    html ← render_template x (codes "signup.html") ((codes "error", text msg) ∷ base_context ctx)
    pure (html_response status hx_full_swap html)

  unfoldable pub signup_form : RequestContext → Handler R S Response
  unfolding render_template
  signup_form ctx = do
    html ← render_template x (codes "signup.html") ((codes "error", text []) ∷ base_context ctx)
    pure (html_response 200 [] html)

  -- The form again, with the messages of the failed checks.
  unfoldable pub login_invalid :
      AppState → RequestContext → Credentials → ValidationErrors → Handler R S Response
  unfolding render_login_form
  login_invalid state ctx creds errs = do
    count (auth_logins_total false)
    msg ← say_errors x ctx.locale errs
    render_login_form state ctx creds.next msg 422

  -- The form again: there is no such user, or the password is wrong.
  unfoldable pub login_rejected : AppState → RequestContext → Credentials → Handler R S Response
  unfolding render_login_form
  login_rejected state ctx creds = do
    count (auth_logins_total false)
    msg ← say x ctx.locale (codes "validation-invalid-credentials")
    render_login_form state ctx creds.next msg 401

  unfoldable pub login_accepted : Headers → Credentials → User → Handler R S Response
  login_accepted headers creds user = do
    set_session (codes "session login failed: ") (x.sessions.login user)
    count (auth_logins_total true)
    pure (redirect_after_form headers (unwrap_or (safe_next creds.next) (codes "/")))

  -- `match auth.authenticate(…).await`, where the handler goes on by the user that it found.
  abbrev after_authenticate :
      Result StorageError (Option User)
      → (Option User → Handler R S Response)
      → Handler R S Response
  after_authenticate (ok found) k = k found
  after_authenticate (err e) k = raise (internal (codes "authentication backend error"))

  unfoldable pub login : AppState → Headers → RequestContext → Credentials → Handler R S Response
  unfolding login_invalid login_rejected login_accepted authenticate
  login state headers ctx creds w = elim (validate_credentials x.validator creds) [
    | e ∷ errs ↦ login_invalid state ctx creds (e ∷ errs) w
    | [] ↦
        let (answer, w') = authenticate x creds.email creds.password w in
        after_authenticate answer
          (elim [
            | some user ↦ login_accepted headers creds user
            | none ↦ login_rejected state ctx creds
          ])
          w'
  ]

  unfoldable pub signup_failed : Handler R S (Unit {0})
  signup_failed = count (auth_signups_total false)

  unfoldable pub signup_invalid : RequestContext → ValidationErrors → Handler R S Response
  unfolding render_signup_form signup_failed
  signup_invalid ctx errs = do
    signup_failed
    msg ← say_errors x ctx.locale errs
    render_signup_form ctx msg 422

  unfoldable pub signup_taken : RequestContext → Handler R S Response
  unfolding render_signup_form signup_failed
  signup_taken ctx = do
    signup_failed
    msg ← say x ctx.locale (codes "validation-account-exists")
    render_signup_form ctx msg 409

  unfoldable pub signup_error : StorageError → Handler R S Response
  unfolding signup_failed
  signup_error e = do signup_failed; raise (from_storage x.display_sqlx e)

  unfoldable pub signup_created : Headers → User → Handler R S Response
  signup_created headers user = do
    set_session (codes "post-signup session login failed: ") (x.sessions.login user)
    count (auth_signups_total true)
    pure (redirect_after_form headers (codes "/"))

  -- `match state.users.create(new).await`
  unfoldable pub after_create :
      RequestContext → Headers → Result StorageError User → Handler R S Response
  unfolding signup_taken signup_error signup_created
  after_create ctx headers (ok user) = signup_created headers user
  after_create ctx headers (err (conflict m)) = signup_taken ctx
  after_create ctx headers (err e) = signup_error e

  unfoldable pub signup : Ambient → Headers → RequestContext → NewUser → Handler R S Response
  unfolding signup_invalid after_create
  signup ambient headers ctx new w = elim (validate_new_user x.validator new) [
    | e ∷ errs ↦ signup_invalid ctx (e ∷ errs) w
    | [] ↦
        let (answer, w') =
          on_db
            (UserRepo.create x.accounts ambient.now (record { uuid = ambient.fresh }) ambient.salt
              new)
            w in
        after_create ctx headers answer w'
  ]

  unfoldable pub logout : Headers → Handler R S Response
  logout headers = do
    set_session (codes "logout failed: ") x.sessions.logout
    pure (redirect_after_form headers (codes "/login"))

  -- dev.rs
  unfoldable pub auto_login : AppState → Handler R S Response
  auto_login state = do
    email ← ok_or (enabled_email state.debug state.config.dev) not_found
    found ← on_db? x (find_by_email x.accounts email)
    user ← ok_or found (internal (codes "dev user " ++ (email ++ codes " missing from db")))
    set_session (codes "dev session login failed: ") (x.sessions.login user)
    pure (x.http.redirect_to (codes "/"))
