-- ===== src/Storage/TodoRepo/BlankTitles.antt =====
-- Titles of white space, in the validation and in the table.
use todo_rust.Prelude.{[], all, length, refl, true, ◌≡◌, ◌≤◌}
use todo_rust.Domain.{NewTodo, Time, TodoId, UserId}
use todo_rust.Domain.Validation.{CountsChars, Validator, check_field, validate_new_todo}
use todo_rust.Prelude.Exec.{err}
use todo_rust.Storage.{Database, check_violation, database, run_sql}
use todo_rust.Storage.TodoRepo.{create, title_fits}
use todo_rust.Storage.TodoRepo.Effects.{IsUp}
use todo_rust.Text.{is_whitespace}
use todo_rust.Text.Laws.{trim-eq-nil}

-- A title of white space with 1 to 280 characters passes the validation, but `create`, if it is
-- answered, fails with a violation of the table's check.
pub create_blank :
    (v : Validator)
    → CountsChars v
    → (now : Time) (fresh : TodoId) (user : UserId) (new : NewTodo) (db : Database)
    → all is_whitespace new.title ≡ true
    → 1 ≤ length new.title
    → length new.title ≤ 280
    → IsUp db
    → (validate_new_todo v new ≡ [])
      × ((create now fresh user new db).0 ≡ err (database check_violation))
create_blank v counts now fresh user new db blank least most up' =
    let passes = (counts.length_iff new.title 1 280).1 (least, most) in
    let gone = trim-eq-nil new.title blank in
    (
      unfold validate_new_todo check_field in rw passes refl,
      unfold create run_sql title_fits in rw (up', gone) refl,
    )
