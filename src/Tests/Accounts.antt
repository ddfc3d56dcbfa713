-- ===== src/Tests/Accounts.antt =====
-- The repository of users.
use todo_rust.Prelude.{[], arith, map, none, refl, some, when, ◌==◌, ◌≡◌}
use todo_rust.Domain.{NewUser, User, UserId}
use todo_rust.Prelude.Exec.{err, ok}
use todo_rust.Storage.{conflict, run_sql}
use todo_rust.Storage.UserRepo.{
  VerifiesHashes, create, insert_user, row_to_user, same_email, select_by_email, stored_hash,
  update_preferences, verify,
}
use todo_rust.Storage.UserRepo.Emails.{create-taken}
use todo_rust.Storage.UserRepo.Preferences.{preferred, update_preferences_lem}
use todo_rust.Storage.UserRepo.Registration.{verify-create}
use todo_rust.Storage.UserRepo.Signin.{SignedIn, verify_sound}
use todo_rust.Tests.Fixtures.{account, accounts, alice, db}
use todo_rust.Text.{codes, is_whitespace, text_eq, trim, trim_end, trim_start}
use todo_rust.Text.Laws.{text_eq_iff}

abbrev carol : UserId
carol = record { uuid = 3 }

abbrev new_carol : NewUser
new_carol = record { email = codes "c@d"; password = codes "long" }

abbrev new_bob : NewUser
new_bob = record { email = codes "b@b "; password = [] }

verify_sound_example :
    SignedIn accounts
      (codes " a@b")
      (codes "secret")
      db.tables
      (row_to_user (account 1 (codes "a@b") (codes "secret")))
unfolding verify select_by_email run_sql stored_hash same_email row_to_user text_eq trim trim_start
    trim_end is_whitespace
verify_sound_example =
    verify_sound accounts (codes " a@b") (codes "secret") db
      (row_to_user (account 1 (codes "a@b") (codes "secret"))) refl

create-taken_example :
    ((create accounts 5 carol 0 new_bob db).0 ≡ err (conflict (codes "email already in use")))
    × ((create accounts 5 carol 0 new_bob db).1.tables ≡ db.tables)
unfolding same_email text_eq trim trim_start trim_end is_whitespace
create-taken_example = create-taken accounts 5 carol 0 new_bob db [] refl refl refl

accounts-VerifiesHashes : VerifiesHashes accounts
accounts-VerifiesHashes = record {
  verify-generate = λ salt password hash h. ground (arith, text_eq_iff password hash);
}

abbrev carol_user : User
carol_user = record {
  id = carol;
  email = codes "c@d";
  password_hash = codes "long";
  created_at = 5;
  locale = none;
  timezone = none;
}

verify-create_example :
    (verify accounts new_carol.email new_carol.password
      (create accounts 5 carol 0 new_carol db).1).0
    ≡ ok (some carol_user)
unfolding create run_sql insert_user same_email text_eq trim trim_start trim_end is_whitespace
    row_to_user
verify-create_example =
    verify-create accounts accounts-VerifiesHashes 5 carol 0 new_carol db carol_user refl refl

update_preferences_example :
    ((update_preferences accounts 9 alice (some (codes "fr")) (some []) db).0 ≡ ok tt)
    × ((update_preferences accounts 9 alice (some (codes "fr")) (some []) db).1.tables.users
        ≡ map (λ u. when (u.id == 1) (preferred 9 (some (codes "fr")) (some [])) u) db.tables.users)
    × ((update_preferences accounts 9 alice (some (codes "fr")) (some []) db).1.tables.todos
        ≡ db.tables.todos)
update_preferences_example =
    update_preferences_lem accounts 9 alice (some (codes "fr")) (some []) db refl
