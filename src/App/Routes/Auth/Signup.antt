-- ===== src/App/Routes/Auth/Signup.antt =====
-- Who is in the session after the signup form.
use todo_rust.Storage.UserRepo
use todo_rust.Prelude.{List-cases, arith, inl, inr, some, ◌∷◌, ◌≡◌, ◌⊎◌}
use todo_rust.App.Http.{Headers}
use todo_rust.App.Render.{render_template, say, say_errors}
use todo_rust.App.Routes.Auth.{
  after_create, render_signup_form, signup, signup_created, signup_error, signup_failed,
  signup_invalid, signup_taken,
}
use todo_rust.App.World.{Ambient, External, KeepsSessions, RequestContext, World}
use todo_rust.Domain.{NewUser, User}
use todo_rust.Domain.Validation.{ValidationErrors, validate_new_user}
use todo_rust.Prelude.Exec.{Result-cases, err, ok}
use todo_rust.Storage.{
  StorageError, conflict, database, hashing, invalid_credentials, join_error, migrate, not_found,
}

module _ {R S : Type 0} (x : External R S) (laws : KeepsSessions x.sessions) where
  signup_invalid-auth :
      (ctx : RequestContext) (errs : ValidationErrors) (w : World R S)
      → (signup_invalid x ctx errs w).1.auth ≡ w.auth
  unfolding signup_invalid render_signup_form render_template say_errors signup_failed
  signup_invalid-auth ctx errs w = ground arith

  signup_taken-auth :
      (ctx : RequestContext) (w : World R S) → (signup_taken x ctx w).1.auth ≡ w.auth
  unfolding signup_taken render_signup_form render_template say signup_failed
  signup_taken-auth ctx w = ground arith

  signup_error-auth : (e : StorageError) (w : World R S) → (signup_error x e w).1.auth ≡ w.auth
  unfolding signup_error signup_failed
  signup_error-auth e w = ground arith

  signup_created-auth :
      (headers : Headers) (user : User) (w : World R S)
      → ((signup_created x headers user w).1.auth ≡ w.auth)
        ⊎ ((signup_created x headers user w).1.auth.user ≡ some user)
  unfolding signup_created
  signup_created-auth headers user w = elim (Result-cases (x.sessions.login user w.auth)) [
    | inl (a, e) ↦ inr (ground (arith, laws.user-login user w.auth a e))
    | inr (m, e) ↦ inl (ground arith)
  ]

  after_failure-auth :
      (ctx : RequestContext) (headers : Headers) (e : StorageError) (w : World R S)
      → (after_create x ctx headers (err e) w).1.auth ≡ w.auth
  unfolding after_create
  after_failure-auth ctx headers not_found w = signup_error-auth not_found w
  after_failure-auth ctx headers (conflict m) w = signup_taken-auth ctx w
  after_failure-auth ctx headers invalid_credentials w = signup_error-auth invalid_credentials w
  after_failure-auth ctx headers hashing w = signup_error-auth hashing w
  after_failure-auth ctx headers (migrate m) w = signup_error-auth (migrate m) w
  after_failure-auth ctx headers (database e) w = signup_error-auth (database e) w
  after_failure-auth ctx headers (join_error m) w = signup_error-auth (join_error m) w

  -- After the signup form the session is as it was, or its user is the one that `create` returned
  -- for the form.
  pub signup_sound :
      (ambient : Ambient) (headers : Headers) (ctx : RequestContext) (new : NewUser) (w : World R S)
      → ((signup x ambient headers ctx new w).1.auth ≡ w.auth)
        ⊎ ((user : User) × ((UserRepo.create x.accounts ambient.now
                (record { uuid = ambient.fresh })
                ambient.salt
                new
                w.db).0
              ≡ ok user)
            × ((signup x ambient headers ctx new w).1.auth.user ≡ some user))
  signup_sound ambient headers ctx new w = elim (List-cases (validate_new_user x.validator new)) [
    | inr (e, errs, invalid) ↦
        inl (unfold signup in ground (arith, signup_invalid-auth ctx (e ∷ errs) w))
    | inl valid ↦
        let made =
          UserRepo.create x.accounts ambient.now (record { uuid = ambient.fresh }) ambient.salt new
            w.db in
        elim (Result-cases made.0) [
          | inr (e, failed) ↦ inl (
              unfold signup in
              ground (arith, after_failure-auth ctx headers e (record w { db = made.1 })))
          | inl (user, good) ↦
              unfold signup after_create in
              ground (arith, signup_created-auth headers user (record w { db = made.1 }))
        ]
  ]
