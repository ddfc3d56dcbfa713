-- ===== src/Storage/UserRepo.antt =====
-- crates/storage/src/user_repo.rs: accounts, password checks and preferences.
pub mod Preferences
pub mod Registration
pub mod Signin
pub mod Emails
use todo_rust.Prelude.{
  Bool, Option, [], and_then, any, find, if◌then◌else◌, is_some, map, map_option, none, some, true,
  when, ℕ, ◌++◌, ◌==◌, ◌||◌, ◌∷◌, ◌≡◌,
}
use todo_rust.Domain.{NewUser, Time, User, UserId}
use todo_rust.Prelude.Exec.{Exec, err, map_err, ok, ok_or, pure, ◌>>=◌, ◌>>◌}
use todo_rust.Storage.{
  Database, SqlxError, Statement, StorageError, UserRow, conflict, database, join_error, query,
  run_sql, unique_violation,
}
use todo_rust.Text.{Text, codes, is_empty, text_eq, trim}

-- What Postgres and the `password_auth` crate do: `LOWER`, and the two functions on passwords,
-- which give `none` where the blocking task that runs them does not finish. The number is the salt.
pub record Accounts : Type 0 where
  pub lower : Text → Text
  pub generate_hash : ℕ → Text → Option Text
  pub verify_password : Text → Text → Option Bool

-- A hash that was made from a password is accepted with that password.
pub record VerifiesHashes (x : Accounts) : Type 0 where
  pub verify-generate :
      (salt : ℕ) (password hash : Text)
      → x.generate_hash salt password ≡ some hash
      → x.verify_password password hash ≡ some true

unfoldable pub timing_dummy_hash : Text
timing_dummy_hash =
    codes
      "$argon2id$v=19$m=19456,t=2,p=1$c29tZXNhbHRzb21lc2FsdA$UJg9rqFq8mqo5Hckj4cVi1NJV4O8e1V5z9eC7tEjxlw"

unfoldable pub row_to_user : UserRow → User
row_to_user row = record {
  id = record { uuid = row.id };
  email = row.email;
  password_hash = row.password_hash;
  created_at = row.created_at;
  locale = row.locale;
  timezone = row.timezone;
}

-- The hash that a password is checked against.
unfoldable pub stored_hash : Option UserRow → Text
stored_hash none = timing_dummy_hash
stored_hash (some row) = row.password_hash

-- `s.is_empty()` stands for SQL NULL.
unfoldable pub empty_to_null : Text → Option Text
empty_to_null s = if is_empty s then none else some s

-- `CASE WHEN $set THEN $value ELSE column END`
unfoldable pub case_when : Bool → Option Text → Option Text → Option Text
case_when set value column = if set then value else column

unfoldable pub select_by_id : UserId → Statement (Option UserRow)
select_by_id id t = (ok (find (λ u. u.id == id.uuid) t.users), t)

unfoldable pub update_user :
    Time → UserId → Bool → Option Text → Bool → Option Text → Statement (Unit {0})
update_user now id set_locale locale set_timezone timezone t = (
  ok tt,
  record t {
    users =
        map
          (λ u.
            when (u.id == id.uuid)
              (λ (r : UserRow). record r {
                locale = case_when set_locale locale r.locale;
                timezone = case_when set_timezone timezone r.timezone;
                updated_at = now;
              })
              u)
          t.users;
  },
)

-- `is_unique_violation` becomes a conflict, any other error of the database is passed on.
unfoldable pub insert_error : SqlxError → StorageError
insert_error unique_violation = conflict (codes "email already in use")
insert_error e = database e

abbrev join_failed : Text
join_failed = codes "task failed"

-- The row of a new account, with the defaults of its other columns.
abbrev pub new_user_row : Time → UserId → Text → Text → UserRow
new_user_row now id email hash = record {
  id = id.uuid;
  email = email;
  password_hash = hash;
  created_at = now;
  updated_at = now;
  locale = none;
  timezone = none;
}

module _ (x : Accounts) where
  unfoldable pub same_email : Text → UserRow → Bool
  same_email email row = text_eq (x.lower row.email) (x.lower email)

  unfoldable pub select_by_email : Text → Statement (Option UserRow)
  unfolding same_email
  select_by_email email t = (ok (find (same_email email) t.users), t)

  -- The primary key and `users_email_lower_idx`, then the row with its defaults.
  unfoldable pub insert_user : Time → UserId → Text → Text → Statement UserRow
  unfolding same_email
  insert_user now id email hash t =
      if any (λ u. u.id == id.uuid) t.users || any (same_email email) t.users
      then (err unique_violation, t)
      else (
        ok (new_user_row now id email hash),
        record t { users = t.users ++ new_user_row now id email hash ∷ [] },
      )

  -- `fresh` is the identifier that `UserId::new()` draws.
  unfoldable pub create : Time → UserId → ℕ → NewUser → Exec StorageError Database User
  unfolding insert_user insert_error
  create now fresh salt new = do
    let email = trim new.email
    hash ← ok_or (x.generate_hash salt new.password) (join_error join_failed)
    row ← map_err insert_error (run_sql (insert_user now fresh email hash))
    pure (row_to_user row)

  unfoldable pub find_by_id : UserId → Exec StorageError Database (Option User)
  unfolding select_by_id
  find_by_id id = do row ← query (select_by_id id); pure (map_option row_to_user row)

  unfoldable pub find_by_email : Text → Exec StorageError Database (Option User)
  unfolding select_by_email
  find_by_email email = do
    row ← query (select_by_email (trim email))
    pure (map_option row_to_user row)

  unfoldable pub verify : Text → Text → Exec StorageError Database (Option User)
  unfolding select_by_email stored_hash
  verify email password = do
    row ← query (select_by_email (trim email))
    let found_user = map_option row_to_user row
    good ← ok_or (x.verify_password password (stored_hash row)) (join_error join_failed)
    pure (if good then found_user else none)

  unfoldable pub update_preferences :
      Time → UserId → Option Text → Option Text → Exec StorageError Database (Unit {0})
  unfolding update_user case_when empty_to_null
  update_preferences now id locale timezone = do
    let set_locale = is_some locale
    let locale_val = and_then locale empty_to_null
    let set_timezone = is_some timezone
    let timezone_val = and_then timezone empty_to_null
    query (update_user now id set_locale locale_val set_timezone timezone_val)
