-- ===== src/Tests/TodoRepo.antt =====
-- The repository of todos at two users with a todo each.
use mathlib.Core.List.{Perm}
use todo_rust.Prelude.{List, [], arith, false, none, refl, some, true, ◌↔◌, ◌∷◌, ◌≡◌}
use todo_rust.Domain.{NewTodo}
use todo_rust.Domain.Validation.{validate_new_todo}
use todo_rust.Prelude.Exec.{err, ok}
use todo_rust.Storage.{check_violation, database, not_found, run_sql}
use todo_rust.Storage.TodoRepo.{
  create, delete, delete_row, get, insert_row, insert_todo, is_row, list_for_user, order_rows,
  row_to_todo, select_owned, select_row, title_fits, toggle, update_row,
}
use todo_rust.Storage.TodoRepo.BlankTitles.{create_blank}
use todo_rust.Storage.TodoRepo.Calls.{
  Call, create_call, delete_call, get_call, perform, toggle_call,
}
use todo_rust.Storage.TodoRepo.Contract.{book_of, reply}
use todo_rust.Storage.TodoRepo.Effects.{delete-eq-not_found_iff, get-create, row_of}
use todo_rust.Storage.TodoRepo.Integrity.{HasIntegrity}
use todo_rust.Storage.TodoRepo.Isolation.{others, others-perform}
use todo_rust.Storage.TodoRepo.Listing.{IsOrdered, list_for_user_lem, owned_todos}
use todo_rust.Storage.TodoRepo.Runs.{answer_calls, answer_calls-promises, promises}
use todo_rust.Tests.Fixtures.{
  alice, bob, db, fresh_id, milk, new_eggs, todo_of, validator, validator-CountsChars,
}
use todo_rust.Text.{codes, is_whitespace, trim, trim_end, trim_start}

others-perform_example :
    others alice (perform alice (delete_call milk) db).tables.todos ≡ others alice db.tables.todos
others-perform_example = others-perform alice (delete_call milk) db

list_for_user_example :
    Perm (todo_of 10 1 (codes "milk") false 10 10 ∷ []) (owned_todos alice db.tables.todos)
    × IsOrdered (todo_of 10 1 (codes "milk") false 10 10 ∷ [])
    × ((list_for_user alice db).1.tables ≡ db.tables)
unfolding list_for_user select_owned order_rows insert_row row_to_todo run_sql
list_for_user_example = list_for_user_lem alice db _ refl

get-create_example :
    ((codes "eggs") ≡ trim new_eggs.title)
    × (false ≡ false)
    × ((get alice fresh_id (create 5 fresh_id alice new_eggs db).1).0
        ≡ ok (todo_of 12 1 (codes "eggs") false 5 5))
unfolding create run_sql insert_todo title_fits trim trim_start trim_end is_whitespace row_to_todo
get-create_example =
    get-create 5 fresh_id alice new_eggs db (todo_of 12 1 (codes "eggs") false 5 5) refl refl

delete-eq-not_found_iff_example :
    ((delete bob milk db).0 ≡ err not_found) ↔ (row_of bob milk db.tables ≡ none)
delete-eq-not_found_iff_example = delete-eq-not_found_iff bob milk db refl

-- A todo is made, ticked off and deleted, and then asked for.
abbrev egg_calls : List Call
egg_calls =
    create_call 5 fresh_id new_eggs
    ∷ toggle_call 6 fresh_id
    ∷ delete_call fresh_id
    ∷ get_call fresh_id
    ∷ []

db-HasIntegrity : HasIntegrity db.tables
unfolding title_fits
db-HasIntegrity = record {
  distinct = (((λ e. absurd (omega (arith, e))), tt), (tt, tt));
  fitting = (refl, (refl, tt));
  owned = (refl, (refl, tt));
}

answer_calls_example :
    ((answer_calls alice egg_calls db).0 ≡ (promises alice egg_calls (book_of alice db.tables)).0)
    × (book_of alice (answer_calls alice egg_calls db).1.tables
        ≡ (promises alice egg_calls (book_of alice db.tables)).1)
unfolding perform create toggle delete get run_sql insert_todo update_row delete_row select_row
    title_fits trim is_row
answer_calls_example =
    answer_calls-promises alice egg_calls db db-HasIntegrity
      (refl, (refl, refl), (refl, tt, (refl, tt, (refl, tt, tt))))

answer_calls_run :
    (answer_calls alice egg_calls db).0
    ≡ ok (some (todo_of 12 1 (codes "eggs") false 5 5))
      ∷ ok (some (todo_of 12 1 (codes "eggs") true 5 6))
      ∷ ok none
      ∷ err not_found
      ∷ []
unfolding answer_calls reply perform create toggle delete get run_sql insert_todo update_row
    delete_row select_row is_row title_fits row_to_todo trim trim_start trim_end is_whitespace
answer_calls_run = refl

abbrev blank : NewTodo
blank = record { title = codes "  " }

create_blank_example :
    (validate_new_todo validator blank ≡ [])
    × ((create 5 fresh_id alice blank db).0 ≡ err (database check_violation))
unfolding is_whitespace
create_blank_example =
    create_blank validator validator-CountsChars 5 fresh_id alice blank db refl (omega arith)
      (omega arith) refl
