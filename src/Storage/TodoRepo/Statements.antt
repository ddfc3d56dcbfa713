-- ===== src/Storage/TodoRepo/Statements.antt =====
-- The tables after a statement, case by case.
use todo_rust.Prelude.{[], any, arith, false, true, ◌++◌, ◌==◌, ◌∷◌, ◌≡◌, ◌⊎◌}
use todo_rust.Domain.{Time, TodoId, UserId}
use todo_rust.Storage.{Tables, TodoRow}
use todo_rust.Storage.TodoRepo.{insert_todo, new_row, title_fits, update_fits, update_row, updated}
use todo_rust.Text.{Text}

pub tables-insert_todo :
    (now : Time) (id : TodoId) (user : UserId) (title : Text) (t : Tables)
    → ((insert_todo now id user title t).1 ≡ t)
      ⊎ ((title_fits title ≡ true)
          × (any (λ r. r.id == id.uuid) t.todos ≡ false)
          × (any (λ u. u.id == user.uuid) t.users ≡ true)
          × ((insert_todo now id user title t).1
              ≡ record t { todos = t.todos ++ new_row now id user title ∷ [] }))
unfolding insert_todo
tables-insert_todo now id user title t = ground arith

pub tables-update_row :
    (now : Time) (set : TodoRow → TodoRow) (user : UserId) (id : TodoId) (t : Tables)
    → ((update_row now set user id t).1 ≡ t)
      ⊎ ((update_fits now set user id t.todos ≡ true)
          × ((update_row now set user id t).1
              ≡ record t { todos = updated now set user id t.todos }))
unfolding update_row
tables-update_row now set user id t = ground arith
