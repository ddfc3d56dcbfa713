-- ===== src/Storage/TodoRepo/Changes.antt =====
-- `toggle` and `update`: what they return, and what then stands in the row.
use todo_rust.Prelude.{
  Option-cases, arith, find, inl, inr, map_option, not, refl, some, unwrap_or, ◌≡◌,
}
use todo_rust.App.Middleware.RateLimit.Patience.{after}
use todo_rust.Domain.{Time, Todo, TodoId, TodoUpdate, UserId}
use todo_rust.Prelude.Exec.{ok}
use todo_rust.Storage.{Database, Tables, TodoRow, run_sql}
use todo_rust.Storage.TodoRepo.{is_row, row_to_todo, touched, update, updated}
use todo_rust.Storage.TodoRepo.Effects.{find-updated, row_of}
use todo_rust.Text.{trim}

-- `NOT completed`
abbrev pub flip : TodoRow → TodoRow
flip r = record r { completed = not r.completed }

-- `COALESCE($3, title)` and `COALESCE($4, completed)`
abbrev pub coalesce : TodoUpdate → TodoRow → TodoRow
coalesce changes r = record r {
  title = unwrap_or (map_option trim changes.title) r.title;
  completed = unwrap_or changes.completed r.completed;
}

-- A changed row, what is returned and what stands in the table.
pub record Changed (set : TodoRow → TodoRow) (now : Time) (user : UserId) (id : TodoId)
    (before after : Tables) (todo : Todo) : Type 0 where
  pub row : TodoRow
  pub met : row_of user id before ≡ some row
  pub returned : todo ≡ row_to_todo (touched now set row)
  pub stored : row_of user id after ≡ some (touched now set row)

answered-update :
    (now : Time) (user : UserId) (id : TodoId) (changes : TodoUpdate) (db : Database) (todo : Todo)
    → (update now user id changes db).0 ≡ ok todo
    → (map_option row_to_todo
          (find (is_row user id) (updated now (coalesce changes) user id db.tables.todos))
        ≡ some todo)
      × ((update now user id changes db).1.tables.todos
          ≡ updated now (coalesce changes) user id db.tables.todos)
unfolding update run_sql
answered-update now user id changes db todo h = ground arith

module _ (now : Time) (set : TodoRow → TodoRow) (user : UserId) (id : TodoId)
    (same_id : (r : TodoRow) → (set r).id ≡ r.id)
    (same_owner : (r : TodoRow) → (set r).owner_id ≡ r.owner_id) where
  changed :
      (before after : Tables) (todo : Todo)
      → map_option row_to_todo (find (is_row user id) (updated now set user id before.todos))
        ≡ some todo
      → after.todos ≡ updated now set user id before.todos
      → Changed set now user id before after todo
  changed before after todo h k =
      let found = find-updated now set user id same_id same_owner before.todos in
      elim (Option-cases (row_of user id before)) [
        | inl e ↦ absurd (ground (arith, found))
        | inr (row, e) ↦ record {
          row = row;
          met = e;
          returned = ground (arith, found);
          stored = rw (k, found, e);
        }
      ]

-- An `update` that succeeded met the user's row, replaced the title by the trimmed new one and the
-- flag by the new one where they are given, and returned what it stored.
update_lem :
    (now : Time) (user : UserId) (id : TodoId) (changes : TodoUpdate) (db : Database) (todo : Todo)
    → (update now user id changes db).0 ≡ ok todo
    → Changed (coalesce changes) now user id db.tables (update now user id changes db).1.tables todo
update_lem now user id changes db todo h =
    let (found, rows) = answered-update now user id changes db todo h in
    changed now (coalesce changes) user id (λ r. refl) (λ r. refl) db.tables _ todo found rows
