-- ===== src/Storage/UserRepo/Registration.antt =====
-- `create` and `verify` on one account.
use todo_rust.Prelude.{
  Bool, List, Option-cases, [], any, ap, arith, false, find, inl, inr, some, sym, true, ℕ, ◌++◌,
  ◌∙◌, ◌∷◌, ◌≡◌,
}
use todo_rust.Domain.{NewUser, Time, User, UserId}
use todo_rust.Prelude.Exec.{ok}
use todo_rust.Storage.{Database, UserRow, next_link, run_sql, up}
use todo_rust.Storage.UserRepo.{
  Accounts, VerifiesHashes, create, insert_error, insert_user, new_user_row, row_to_user,
  same_email, stored_hash, verify,
}
use todo_rust.Text.{Text, trim}
use todo_rust.Text.Laws.{text_eq_refl}

find-append :
    (p : UserRow → Bool) (rows : List UserRow) (row : UserRow)
    → any p rows ≡ false
    → p row ≡ true
    → find p (rows ++ row ∷ []) ≡ some row
find-append p [] row h k = ground arith
find-append p (r ∷ rows) row h k = ground (arith, find-append p rows row)

module _ (x : Accounts) (laws : VerifiesHashes x) where
  -- What `create` stored.
  record Created (now : Time) (fresh : UserId) (salt : ℕ) (new : NewUser) (db : Database)
      (user : User) : Type 0 where
    pub hash : Text
    pub hashed : x.generate_hash salt new.password ≡ some hash
    pub free : any (same_email x (trim new.email)) db.tables.users ≡ false
    pub stored :
        (create x now fresh salt new db).1.tables.users
        ≡ db.tables.users ++ new_user_row now fresh (trim new.email) hash ∷ []
    pub returned : user ≡ row_to_user (new_user_row now fresh (trim new.email) hash)

  created :
      (now : Time) (fresh : UserId) (salt : ℕ) (new : NewUser) (db : Database) (user : User)
      → (create x now fresh salt new db).0 ≡ ok user
      → Created now fresh salt new db user
  unfolding create run_sql insert_user insert_error
  created now fresh salt new db user h = elim (Option-cases (x.generate_hash salt new.password)) [
    | inl e ↦ absurd (ground arith)
    | inr (hash, e) ↦ record {
      hash = hash;
      hashed = e;
      free = ground arith;
      stored = ground arith;
      returned = ground arith;
    }
  ]

  same_email-new :
      (now : Time) (fresh : UserId) (email hash : Text)
      → same_email x email (new_user_row now fresh email hash) ≡ true
  unfolding same_email
  same_email-new now fresh email hash = text_eq_refl (x.lower email)

  answered :
      (email password : Text) (db : Database) (row : UserRow)
      → next_link db.links ≡ up
      → find (same_email x (trim email)) db.tables.users ≡ some row
      → x.verify_password password row.password_hash ≡ some true
      → (verify x email password db).0 ≡ ok (some (row_to_user row))
  unfolding verify run_sql stored_hash
  answered email password db row h k e = ground arith

  -- If a hash is accepted with the password that it was made from, the user that `create` returned
  -- is the one that `verify` gives for the same address and password, provided that this call is
  -- answered.
  pub verify-create :
      (now : Time) (fresh : UserId) (salt : ℕ) (new : NewUser) (db : Database) (user : User)
      → (create x now fresh salt new db).0 ≡ ok user
      → next_link (create x now fresh salt new db).1.links ≡ up
      → (verify x new.email new.password (create x now fresh salt new db).1).0 ≡ ok (some user)
  verify-create now fresh salt new db user h up' =
      let c = created now fresh salt new db user h in
      let row = new_user_row now fresh (trim new.email) c.hash in
      let met : find (same_email x (trim new.email)) (create x now fresh salt new db).1.tables.users
          ≡ some row =
        rw c.stored (
          find-append (same_email x (trim new.email)) db.tables.users row c.free
            (same_email-new now fresh (trim new.email) c.hash)) in
      let good = laws.verify-generate salt new.password c.hash c.hashed in
      answered new.email new.password (create x now fresh salt new db).1 row up' met good
      ∙ ap (λ u. ok (some u)) (sym c.returned)
