-- ===== src/App/Routes/Auth/DevLogin.antt =====
-- The login without a password (crates/app/src/routes/dev.rs).
use todo_rust.Prelude.{
  Bool, List-cases, Option-cases, [], ap, arith, find, inl, inr, some, some_inj, sym, true, ◌∙◌,
  ◌∷◌, ◌≡◌, ◌≢◌, ◌⊎◌,
}
use todo_rust.App.Config.{DevConfig, enabled_email}
use todo_rust.App.Router.Pages.{answered}
use todo_rust.App.Routes.Auth.{auto_login}
use todo_rust.App.State.{AppState}
use todo_rust.App.World.{External, KeepsSessions, World}
use todo_rust.Assets.{dev}
use todo_rust.Domain.{User}
use todo_rust.Prelude.Exec.{Result-cases, ok}
use todo_rust.Storage.{Database, Tables, UserRow, run_sql}
use todo_rust.Storage.TodoRepo.Contract.{reply}
use todo_rust.Storage.UserRepo.{Accounts, find_by_email, row_to_user, same_email}
use todo_rust.Storage.UserRepo.Signin.{find_sound, same_email_sound}
use todo_rust.Text.{Text, trim}

-- The user of the setting for development.
pub record IsDevUser (x : Accounts) (state : AppState) (t : Tables) (user : User) : Type 0 where
  pub in_debug : state.debug ≡ true
  pub configured : trim state.config.dev.auto_login_email ≢ []
  pub row : UserRow
  pub stored :
      find (same_email x (trim (trim state.config.dev.auto_login_email))) t.users ≡ some row
  pub same_address : x.lower row.email ≡ x.lower (trim (trim state.config.dev.auto_login_email))
  pub returned : user ≡ row_to_user row

enabled_email_sound :
    (debug : Bool) (dev : DevConfig) (email : Text)
    → enabled_email debug dev ≡ some email
    → (debug ≡ true) × (trim dev.auto_login_email ≡ email) × (email ≢ [])
unfolding enabled_email
enabled_email_sound debug dev email h = elim (List-cases (trim dev.auto_login_email)) [
  | inl nil ↦ absurd (ground (arith, h, nil))
  | inr (c, cs, full) ↦
      let same : c ∷ cs ≡ email = ground (arith, h, full) in
      (ground (arith, h), full ∙ same, λ nil. absurd (ground (arith, same, nil)))
]

module _ (x : Accounts) where
  answered-find_by_email :
      (email : Text) (db : Database) (user : User)
      → (find_by_email x email db).0 ≡ ok (some user)
      → (row : UserRow) × (find (same_email x (trim email)) db.tables.users ≡ some row)
        × (user ≡ row_to_user row)
  unfolding find_by_email run_sql
  answered-find_by_email email db user h =
      elim (Option-cases (find (same_email x (trim email)) db.tables.users)) [
        | inl e ↦ absurd (ground arith)
        | inr (row, e) ↦ (row, e, ground arith)
      ]

module _ {R S : Type 0} (x : External R S) (laws : KeepsSessions x.sessions) where
  auto_login-auth :
      (state : AppState) (w : World R S)
      → ((auto_login x state w).1.auth ≡ w.auth)
        ⊎ ((email : Text) × (user : User) × (enabled_email state.debug state.config.dev
              ≡ some email)
            × ((find_by_email x.accounts email w.db).0 ≡ ok (some user))
            × ((auto_login x state w).1.auth.user ≡ some user))
  auto_login-auth state w = elim (Option-cases (enabled_email state.debug state.config.dev)) [
    | inl off ↦ inl (unfold auto_login in ground arith)
    | inr (email, on) ↦ elim (Result-cases (find_by_email x.accounts email w.db).0) [
      | inr (e, failed) ↦ inl (unfold auto_login in ground arith)
      | inl (found, answered) ↦ elim (Option-cases found) [
        | inl nobody ↦ inl (unfold auto_login in ground arith)
        | inr (user, good) ↦ elim (Result-cases (x.sessions.login user w.auth)) [
          | inr (m, e) ↦ inl (unfold auto_login in ground arith)
          | inl (a, e) ↦ inr (
            email,
            user,
            on,
            rw (← good) answered,
            unfold auto_login in ground (arith, laws.user-login user w.auth a e),
          )
        ]
      ]
    ]
  ]

  -- A user who is in the session after the login without a password was there before, or the build
  -- is one for debugging, the setting names an address that is not blank, and the user is that of
  -- the row with this address.
  pub auto_login_sound :
      (state : AppState) (w : World R S) (user : User)
      → (auto_login x state w).1.auth.user ≡ some user
      → (w.auth.user ≡ some user) ⊎ IsDevUser x.accounts state w.db.tables user
  auto_login_sound state w user h = elim (auto_login-auth state w) [
    | inl same ↦ inl (ap (λ a. a.user) (sym same) ∙ h)
    | inr (email, u, on, reply, now) ↦
        let (debug, named, filled) = enabled_email_sound state.debug state.config.dev email on in
        let (row, stored, returned) = answered-find_by_email x.accounts email w.db u reply in
        inr (record {
          in_debug = debug;
          configured = rw named filled;
          row = row;
          stored = rw named stored;
          same_address = rw named (
              same_email_sound x.accounts (trim email) row
                (find_sound (same_email x.accounts (trim email)) w.db.tables.users row stored));
          returned = some_inj (sym h ∙ now) ∙ returned;
        })
  ]
