-- ===== src/Storage/UserRepo/Preferences.antt =====
-- What `update_preferences` changes.
use todo_rust.Prelude.{
  Bool, List, Option, [], and_then, false, is_some, map, none, refl, some, true, when, ◌==◌, ◌∷◌,
  ◌≡◌,
}
use todo_rust.Domain.{Time, UserId}
use todo_rust.Prelude.Exec.{ok}
use todo_rust.Storage.{Database, UserRow, next_link, run_sql, up}
use todo_rust.Storage.UserRepo.{Accounts, case_when, empty_to_null, update_preferences, update_user}
use todo_rust.Text.{Text}

-- The new value of a column: as it was if nothing is given, NULL if the empty text is given.
abbrev pub preference : Option Text → Option Text → Option Text
preference none column = column
preference (some []) column = none
preference (some (c ∷ s)) column = some (c ∷ s)

-- The row behind the change.
abbrev pub preferred : Time → Option Text → Option Text → UserRow → UserRow
preferred now locale timezone r = record r {
  locale = preference locale r.locale;
  timezone = preference timezone r.timezone;
  updated_at = now;
}

-- The row as the statement changes it.
abbrev set_row : Time → Option Text → Option Text → UserRow → UserRow
set_row now locale timezone r = record r {
  locale = case_when (is_some locale) (and_then locale empty_to_null) r.locale;
  timezone = case_when (is_some timezone) (and_then timezone empty_to_null) r.timezone;
  updated_at = now;
}

row-eq :
    (now : Time) (locale timezone : Option Text) (r : UserRow)
    → set_row now locale timezone r ≡ preferred now locale timezone r
unfolding case_when empty_to_null
row-eq now none none r = refl
row-eq now none (some []) r = refl
row-eq now none (some (c ∷ s)) r = refl
row-eq now (some []) none r = refl
row-eq now (some []) (some []) r = refl
row-eq now (some []) (some (c ∷ s)) r = refl
row-eq now (some (d ∷ t)) none r = refl
row-eq now (some (d ∷ t)) (some []) r = refl
row-eq now (some (d ∷ t)) (some (c ∷ s)) r = refl

when-eq : (b : Bool) (f g : UserRow → UserRow) (r : UserRow) → f r ≡ g r → when b f r ≡ when b g r
when-eq true f g r h = h
when-eq false f g r h = refl

map-eq :
    (f g : UserRow → UserRow)
    → ((r : UserRow) → f r ≡ g r)
    → (rows : List UserRow) → map f rows ≡ map g rows
map-eq f g h [] = refl
map-eq f g h (r ∷ rows) = rw (h r, map-eq f g h rows)

-- If the statement is answered, `update_preferences` succeeds, sets the two columns of the user's
-- row as they are given, keeps what is not given, and leaves every other account and all todos
-- alone.
pub update_preferences_lem :
    (x : Accounts) (now : Time) (id : UserId) (locale timezone : Option Text) (db : Database)
    → next_link db.links ≡ up
    → ((update_preferences x now id locale timezone db).0 ≡ ok tt)
      × ((update_preferences x now id locale timezone db).1.tables.users
          ≡ map (λ u. when (u.id == id.uuid) (preferred now locale timezone) u) db.tables.users)
      × ((update_preferences x now id locale timezone db).1.tables.todos ≡ db.tables.todos)
unfolding update_preferences run_sql update_user
update_preferences_lem x now id locale timezone db h = rw h (
  refl,
  map-eq (λ u. when (u.id == id.uuid) (set_row now locale timezone) u)
      (λ u. when (u.id == id.uuid) (preferred now locale timezone) u)
      (λ u.
        when-eq (u.id == id.uuid) (set_row now locale timezone) (preferred now locale timezone) u
          (row-eq now locale timezone u))
      db.tables.users,
  refl,
)
