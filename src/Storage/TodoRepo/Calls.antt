-- ===== src/Storage/TodoRepo/Calls.antt =====
-- The methods of the repository as calls, and what each does to the tables.
use todo_rust.Prelude.{arith, inl, inr, map_option, not, unwrap_or, ◌≡◌, ◌⊎◌}
use todo_rust.Domain.{NewTodo, Time, TodoId, TodoUpdate, UserId}
use todo_rust.Storage.{Database, Tables, run_sql}
use todo_rust.Storage.TodoRepo.{
  create, delete, delete_row, get, insert_todo, list_for_user, toggle, update, update_row,
}
use todo_rust.Text.{trim}

pub data Call : Type 0 where
  list_call : Call
  get_call : TodoId → Call
  create_call : Time → TodoId → NewTodo → Call
  update_call : Time → TodoId → TodoUpdate → Call
  toggle_call : Time → TodoId → Call
  delete_call : TodoId → Call

-- The database after a call by a user.
unfoldable pub perform : UserId → Call → Database → Database
perform user list_call db = (list_for_user user db).1
perform user (get_call id) db = (get user id db).1
perform user (create_call now fresh new) db = (create now fresh user new db).1
perform user (update_call now id changes) db = (update now user id changes db).1
perform user (toggle_call now id) db = (toggle now user id db).1
perform user (delete_call id) db = (delete user id db).1

-- The tables after the statement of a call.
unfoldable pub effect : UserId → Call → Tables → Tables
effect user list_call t = t
effect user (get_call id) t = t
effect user (create_call now fresh new) t = (insert_todo now fresh user (trim new.title) t).1
effect user (update_call now id changes) t =
    (update_row now
      (λ r. record r {
        title = unwrap_or (map_option trim changes.title) r.title;
        completed = unwrap_or changes.completed r.completed;
      })
      user id t).1
effect user (toggle_call now id) t =
    (update_row now (λ r. record r { completed = not r.completed }) user id t).1
effect user (delete_call id) t = (delete_row user id t).1

-- Whatever the network does, a call leaves the tables alone or has its effect.
pub perform-tables :
    (user : UserId) (c : Call) (db : Database)
    → ((perform user c db).tables ≡ db.tables)
      ⊎ ((perform user c db).tables ≡ effect user c db.tables)
unfolding perform effect
perform-tables user list_call db = unfold list_for_user run_sql in ground arith
perform-tables user (get_call id) db = unfold get run_sql in ground arith
perform-tables user (create_call now fresh new) db = unfold create run_sql in ground arith
perform-tables user (update_call now id changes) db = unfold update run_sql in ground arith
perform-tables user (toggle_call now id) db = unfold toggle run_sql in ground arith
perform-tables user (delete_call id) db = unfold delete run_sql in ground arith

-- A property of the tables that the effect keeps is kept by the call.
pub perform_keeps :
    (P : Tables → Type 0) (user : UserId) (c : Call) (db : Database)
    → ((t : Tables) → P t → P (effect user c t))
    → P db.tables
    → P (perform user c db).tables
perform_keeps P user c db keep h = elim (perform-tables user c db) [
  | inl same ↦ rw same h
  | inr next ↦ rw next (keep db.tables h)
]
