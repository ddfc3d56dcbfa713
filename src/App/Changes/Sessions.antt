-- ===== src/App/Changes/Sessions.antt =====
-- The change that the handlers of accounts, sessions and preferences make.
use todo_rust.Storage.UserRepo
use todo_rust.Prelude.{
  Bool-cases, List-cases, Option, Option-cases, and_then, arith, false, inl, inr, is_some, none,
  some, ◌∷◌, ◌≡◌,
}
use todo_rust.App.Changes.{Change, new_account, new_preferences, unchanged}
use todo_rust.App.Config.{enabled_email}
use todo_rust.App.Http.{Headers}
use todo_rust.App.Render.{authenticate, render_template, say, say_errors}
use todo_rust.App.Routes.Auth.{
  after_create, auto_login, login, login_accepted, login_form, login_invalid, login_rejected,
  logout, render_login_form, render_signup_form, signup, signup_created, signup_error,
  signup_failed, signup_form, signup_invalid, signup_taken,
}
use todo_rust.App.Routes.Preferences.{save_locale, update_locale}
use todo_rust.App.State.{AppState}
use todo_rust.App.World.{Ambient, External, RequestContext, World}
use todo_rust.Domain.{Credentials, NewUser, Time, User, UserId}
use todo_rust.Domain.Validation.{ValidationErrors, validate_credentials, validate_new_user}
use todo_rust.I18n.Locale.{contains, supported}
use todo_rust.Prelude.Exec.{Result, Result-cases, err, ok}
use todo_rust.Storage.{
  Database, StorageError, conflict, database, hashing, invalid_credentials, join_error, migrate,
  not_found, run_sql,
}
use todo_rust.Storage.Queries.{tables-run_sql}
use todo_rust.Storage.UserRepo.{
  Accounts, empty_to_null, find_by_email, select_by_email, update_preferences, update_user, verify,
}
use todo_rust.Storage.UserRepo.Emails.{tables-create}
use todo_rust.Text.{Text, trim}

-- The statements that only read.
verify-tables :
    (x : Accounts) (email password : Text) (db : Database)
    → (verify x email password db).1.tables ≡ db.tables
unfolding verify run_sql select_by_email
verify-tables x email password db = ground arith

find_by_email-tables :
    (x : Accounts) (email : Text) (db : Database) → (find_by_email x email db).1.tables ≡ db.tables
unfolding find_by_email run_sql select_by_email
find_by_email-tables x email db = ground arith

module _ {R S : Type 0} (x : External R S) where
  login_accepted-db :
      (headers : Headers) (creds : Credentials) (user : User) (w : World R S)
      → (login_accepted x headers creds user w).1.db ≡ w.db
  unfolding login_accepted
  login_accepted-db headers creds user w = ground arith

  login_rejected-db :
      (state : AppState) (ctx : RequestContext) (creds : Credentials) (w : World R S)
      → (login_rejected x state ctx creds w).1.db ≡ w.db
  unfolding login_rejected render_login_form render_template say
  login_rejected-db state ctx creds w = ground arith

  login_invalid-db :
      (state : AppState) (ctx : RequestContext) (creds : Credentials) (errs : ValidationErrors)
      (w : World R S)
      → (login_invalid x state ctx creds errs w).1.db ≡ w.db
  unfolding login_invalid render_login_form render_template say_errors
  login_invalid-db state ctx creds errs w = ground arith

  pub login-tables :
      (state : AppState) (headers : Headers) (ctx : RequestContext) (creds : Credentials)
      (w : World R S)
      → (login x state headers ctx creds w).1.db.tables ≡ w.db.tables
  login-tables state headers ctx creds w =
      let answer' = verify x.accounts creds.email creds.password w.db in
      let mid = record w { db = answer'.1 } in
      let same = verify-tables x.accounts creds.email creds.password w.db in
      elim (List-cases (validate_credentials x.validator creds)) [
        | inr (e, errs, invalid) ↦
            let kept = login_invalid-db state ctx creds (e ∷ errs) w in
            unfold login in ground (arith, kept)
        | inl valid ↦ elim (Result-cases answer'.0) [
          | inr (e, failed) ↦ unfold login authenticate in ground (arith, same)
          | inl (found, good) ↦ elim (Option-cases found) [
            | inl out ↦
                let kept = login_rejected-db state ctx creds mid in
                unfold login authenticate in ground (arith, same, kept)
            | inr (user, in') ↦
                let kept = login_accepted-db headers creds user mid in
                unfold login authenticate in ground (arith, same, kept)
          ]
        ]
      ]

  signup_invalid-db :
      (ctx : RequestContext) (errs : ValidationErrors) (w : World R S)
      → (signup_invalid x ctx errs w).1.db ≡ w.db
  unfolding signup_invalid render_signup_form render_template say_errors signup_failed
  signup_invalid-db ctx errs w = ground arith

  signup_taken-db : (ctx : RequestContext) (w : World R S) → (signup_taken x ctx w).1.db ≡ w.db
  unfolding signup_taken render_signup_form render_template say signup_failed
  signup_taken-db ctx w = ground arith

  signup_error-db : (e : StorageError) (w : World R S) → (signup_error x e w).1.db ≡ w.db
  unfolding signup_error signup_failed
  signup_error-db e w = ground arith

  after_create-db :
      (ctx : RequestContext) (headers : Headers) (r : Result StorageError User) (w : World R S)
      → (after_create x ctx headers r w).1.db ≡ w.db
  unfolding after_create
  after_create-db ctx headers (ok user) w = unfold signup_created in ground arith
  after_create-db ctx headers (err not_found) w = signup_error-db not_found w
  after_create-db ctx headers (err (conflict m)) w = signup_taken-db ctx w
  after_create-db ctx headers (err invalid_credentials) w = signup_error-db invalid_credentials w
  after_create-db ctx headers (err hashing) w = signup_error-db hashing w
  after_create-db ctx headers (err (migrate m)) w = signup_error-db (migrate m) w
  after_create-db ctx headers (err (database e)) w = signup_error-db (database e) w
  after_create-db ctx headers (err (join_error m)) w = signup_error-db (join_error m) w

  pub signup-Change :
      (ambient : Ambient) (headers : Headers) (ctx : RequestContext) (new : NewUser) (w : World R S)
      → Change x.accounts w.auth.user w.db.tables (signup x ambient headers ctx new w).1.db.tables
  signup-Change ambient headers ctx new w =
      let id : UserId = record { uuid = ambient.fresh } in
      let made = UserRepo.create x.accounts ambient.now id ambient.salt new w.db in
      elim (List-cases (validate_new_user x.validator new)) [
        | inr (e, errs, invalid) ↦
            let kept = signup_invalid-db ctx (e ∷ errs) w in
            unchanged (unfold signup in ground (arith, kept))
        | inl valid ↦
            let kept = after_create-db ctx headers made.0 (record w { db = made.1 }) in
            let behind : (signup x ambient headers ctx new w).1.db ≡ made.1 =
              unfold signup in ground (arith, kept) in
            elim (tables-create x.accounts ambient.now id ambient.salt new w.db) [
              | inl same ↦ unchanged (ground (arith, behind, same))
              | inr (hash, next) ↦
                  new_account ambient.now id (trim new.email) hash (ground (arith, behind, next))
            ]
      ]

  pub logout-db : (headers : Headers) (w : World R S) → (logout x headers w).1.db ≡ w.db
  unfolding logout
  logout-db headers w = ground arith

  pub login_form-db :
      (state : AppState) (next : Option Text) (ctx : RequestContext) (w : World R S)
      → (login_form x state next ctx w).1.db ≡ w.db
  unfolding login_form render_template
  login_form-db state next ctx w = ground arith

  pub signup_form-db : (ctx : RequestContext) (w : World R S) → (signup_form x ctx w).1.db ≡ w.db
  unfolding signup_form render_template
  signup_form-db ctx w = ground arith

  pub auto_login-tables :
      (state : AppState) (w : World R S) → (auto_login x state w).1.db.tables ≡ w.db.tables
  auto_login-tables state w = elim (Option-cases (enabled_email state.debug state.config.dev)) [
    | inl off ↦ unfold auto_login in ground arith
    | inr (email, on) ↦
        let same = find_by_email-tables x.accounts email w.db in
        unfold auto_login in ground (arith, same)
  ]

  update_preferences-Change :
      (user : Option User) (u : User) (now : Time) (locale : Option Text) (db : Database)
      → user ≡ some u
      → Change x.accounts user db.tables
          (update_preferences x.accounts now u.id locale none db).1.tables
  unfolding update_preferences
  update_preferences-Change user u now locale db h =
      let set = is_some locale in
      let value = and_then locale empty_to_null in
      let made = update_user now u.id set value false none in
      elim (tables-run_sql made db) [
        | inl same ↦ unchanged (ground (arith, same))
        | inr next ↦ new_preferences u now (set, value) (false, none) h (ground (arith, next))
      ]

  pub update_locale-Change :
      (state : AppState) (ambient : Ambient) (headers : Headers) (locale : Text) (w : World R S)
      → Change x.accounts w.auth.user w.db.tables
          (update_locale x state ambient headers locale w).1.db.tables
  update_locale-Change state ambient headers locale w =
      elim (Bool-cases (contains supported (trim locale))) [
        | inr no' ↦ unchanged (unfold update_locale in ground (arith, no'))
        | inl yes' ↦ elim (Option-cases w.auth.user) [
          | inl out ↦ unchanged (unfold update_locale save_locale in ground (arith, yes', out))
          | inr (u, e) ↦
              let saved : (update_locale x state ambient headers locale w).1.db
                  ≡ (update_preferences x.accounts ambient.now u.id (some (trim locale)) none
                      w.db).1 =
                unfold update_locale save_locale in ground (arith, yes', e) in
              rw saved
                (update_preferences-Change w.auth.user u ambient.now (some (trim locale)) w.db e)
        ]
      ]
