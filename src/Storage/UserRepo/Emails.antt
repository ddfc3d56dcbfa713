-- ===== src/Storage/UserRepo/Emails.antt =====
-- The addresses of the accounts, and `create`.
use todo_rust.Prelude.{
  All, All-append, List, Option-cases, [], any, arith, false, inl, inr, some, sym, true, ℕ, ◌++◌,
  ◌∷◌, ◌≡◌, ◌≢◌, ◌⊎◌,
}
use todo_rust.Domain.{NewUser, Time, UserId}
use todo_rust.Prelude.Exec.{err}
use todo_rust.Storage.{Database, Tables, UserRow, conflict, next_link, run_sql, up}
use todo_rust.Storage.Queries.{tables-run_sql}
use todo_rust.Storage.UserRepo.{
  Accounts, create, insert_error, insert_user, new_user_row, same_email,
}
use todo_rust.Text.{Text, codes, trim}
use todo_rust.Text.Laws.{text_eq_iff}

module _ (x : Accounts) where
  -- No row has the address.
  abbrev pub Unused : Text → List UserRow → Type 0
  Unused email = All (λ r. x.lower r.email ≢ x.lower email)

  -- The index `users_email_lower_idx`.
  abbrev pub DistinctEmails : List UserRow → Type 0
  DistinctEmails [] = Unit
  DistinctEmails (r ∷ rows) = Unused r.email rows × DistinctEmails rows

  Unused-of_any :
      (email : Text) (rows : List UserRow)
      → any (same_email x email) rows ≡ false
      → Unused email rows
  unfolding same_email
  Unused-of_any email [] h = tt
  Unused-of_any email (r ∷ rows) h = (
    ground (arith, text_eq_iff (x.lower r.email) (x.lower email)),
    Unused-of_any email rows (ground arith),
  )

  DistinctEmails-append :
      (rows : List UserRow) (row : UserRow)
      → DistinctEmails rows
      → Unused row.email rows
      → DistinctEmails (rows ++ row ∷ [])
  DistinctEmails-append [] row h u = (tt, tt)
  DistinctEmails-append (r ∷ rows) row (fresh, h) (ne, u) = (
    All-append (λ q. x.lower q.email ≢ x.lower r.email) rows (row ∷ []) fresh
        ((λ e. ne (sym e)), tt),
    DistinctEmails-append rows row h u,
  )

  tables-insert_user :
      (now : Time) (id : UserId) (email hash : Text) (t : Tables)
      → ((insert_user x now id email hash t).1 ≡ t)
        ⊎ ((any (same_email x email) t.users ≡ false)
            × ((insert_user x now id email hash t).1.users
                ≡ t.users ++ new_user_row now id email hash ∷ []))
  unfolding insert_user
  tables-insert_user now id email hash t = ground arith

  pub insert_user_keeps :
      (now : Time) (id : UserId) (email hash : Text) (t : Tables)
      → DistinctEmails t.users
      → DistinctEmails (insert_user x now id email hash t).1.users
  insert_user_keeps now id email hash t h = elim (tables-insert_user now id email hash t) [
    | inl same ↦ rw same h
    | inr (free, next) ↦ rw next (
        DistinctEmails-append t.users (new_user_row now id email hash) h
          (Unused-of_any email t.users free))
  ]

  pub tables-create :
      (now : Time) (fresh : UserId) (salt : ℕ) (new : NewUser) (db : Database)
      → ((create x now fresh salt new db).1.tables ≡ db.tables)
        ⊎ ((hash : Text) × ((create x now fresh salt new db).1.tables
              ≡ (insert_user x now fresh (trim new.email) hash db.tables).1))
  unfolding create run_sql
  tables-create now fresh salt new db = elim (Option-cases (x.generate_hash salt new.password)) [
    | inl e ↦ inl (ground arith)
    | inr (hash, e) ↦ elim (tables-run_sql (insert_user x now fresh (trim new.email) hash) db) [
      | inl same ↦ inl (ground arith)
      | inr next ↦ inr (hash, ground arith)
    ]
  ]

  -- If no two accounts have one address up to `LOWER`, so it is after `create`, whatever the
  -- network does.
  pub create-DistinctEmails :
      (now : Time) (fresh : UserId) (salt : ℕ) (new : NewUser) (db : Database)
      → DistinctEmails db.tables.users
      → DistinctEmails (create x now fresh salt new db).1.tables.users
  create-DistinctEmails now fresh salt new db h = elim (tables-create now fresh salt new db) [
    | inl same ↦ rw same h
    | inr (hash, next) ↦ rw next (insert_user_keeps now fresh (trim new.email) hash db.tables h)
  ]

  -- If an account has the address up to `LOWER`, the statement is answered and the hash is made,
  -- `create` is a conflict, and the tables stay as they are.
  pub create-taken :
      (now : Time) (fresh : UserId) (salt : ℕ) (new : NewUser) (db : Database) (hash : Text)
      → next_link db.links ≡ up
      → x.generate_hash salt new.password ≡ some hash
      → any (same_email x (trim new.email)) db.tables.users ≡ true
      → ((create x now fresh salt new db).0 ≡ err (conflict (codes "email already in use")))
        × ((create x now fresh salt new db).1.tables ≡ db.tables)
  unfolding create run_sql insert_user insert_error
  create-taken now fresh salt new db hash h k e = ground arith
