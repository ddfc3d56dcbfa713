-- ===== src/Storage/UserRepo/Signin.antt =====
-- `verify`, and the account that `create` makes for it.
use todo_rust.Prelude.{
  Bool, List, Option-cases, [], arith, find, inl, inr, none, some, true, ◌∷◌, ◌≡◌,
}
use todo_rust.Domain.{User}
use todo_rust.Prelude.Exec.{ok}
use todo_rust.Storage.{Database, Tables, UserRow, next_link, run_sql, up}
use todo_rust.Storage.UserRepo.{
  Accounts, row_to_user, same_email, stored_hash, timing_dummy_hash, verify,
}
use todo_rust.Text.{Text, trim}
use todo_rust.Text.Laws.{text_eq_iff}

-- What `find` found passes the test.
pub find_sound :
    (p : UserRow → Bool) (rows : List UserRow) (row : UserRow)
    → find p rows ≡ some row
    → p row ≡ true
find_sound p [] row h = cc
find_sound p (r ∷ rows) row h = ground (arith, find_sound p rows row)

module _ (x : Accounts) where
  -- The user that a sign-in gives, with the row that it was found in and the check of the password.
  pub record SignedIn (email password : Text) (t : Tables) (user : User) : Type 0 where
    pub row : UserRow
    pub met : find (same_email x (trim email)) t.users ≡ some row
    pub same_address : x.lower row.email ≡ x.lower (trim email)
    pub accepted : x.verify_password password row.password_hash ≡ some true
    pub returned : user ≡ row_to_user row

  answered-verify :
      (email password : Text) (db : Database) (user : User)
      → (verify x email password db).0 ≡ ok (some user)
      → (row : UserRow) × (find (same_email x (trim email)) db.tables.users ≡ some row)
        × (x.verify_password password row.password_hash ≡ some true)
        × (user ≡ row_to_user row)
  unfolding verify run_sql stored_hash
  answered-verify email password db user h =
      elim (Option-cases (find (same_email x (trim email)) db.tables.users)) [
        | inl e ↦ absurd (ground arith)
        | inr (row, e) ↦ (row, e, ground arith, ground arith)
      ]

  pub same_email_sound :
      (email : Text) (row : UserRow)
      → same_email x email row ≡ true
      → x.lower row.email ≡ x.lower email
  unfolding same_email
  same_email_sound email row h = (text_eq_iff (x.lower row.email) (x.lower email)).0 h

  -- A user that `verify` gives is that of a row whose address is the given one up to `LOWER` and
  -- trimming, and the password was accepted against the hash of that row.
  pub verify_sound :
      (email password : Text) (db : Database) (user : User)
      → (verify x email password db).0 ≡ ok (some user)
      → SignedIn email password db.tables user
  verify_sound email password db user h =
      let (row, met, good, same) = answered-verify email password db user h in
      record {
        row = row;
        met = met;
        same_address =
            same_email_sound (trim email) row
              (find_sound (same_email x (trim email)) db.tables.users row met);
        accepted = good;
        returned = same;
      }

  -- If no row has the address, the statement is answered and the check of the dummy hash finishes,
  -- `verify` gives no user, whatever the check says.
  pub verify-unknown :
      (email password : Text) (db : Database) (good : Bool)
      → next_link db.links ≡ up
      → find (same_email x (trim email)) db.tables.users ≡ none
      → x.verify_password password timing_dummy_hash ≡ some good
      → (verify x email password db).0 ≡ ok none
  unfolding verify run_sql stored_hash
  verify-unknown email password db good h k e = ground arith
