-- ===== src/Storage/TodoRepo/Books.antt =====
-- The book of a user behind each change of the rows (crates/storage/src/todo_repo.rs).
use mathlib.Core.Path.{fun_ext}
use todo_rust.Prelude.{[], any, arith, false, none, not, select, some, ◌++◌, ◌==◌, ◌∷◌, ◌≡◌}
use todo_rust.Domain.{Time, TodoId, UserId}
use todo_rust.Storage.{Tables, TodoRow}
use todo_rust.Storage.TodoRepo.{is_row, row_to_todo, touched, updated}
use todo_rust.Storage.TodoRepo.Contract.{Book, book_of, put}
use todo_rust.Storage.TodoRepo.Effects.{row_of}
use todo_rust.Storage.TodoRepo.Integrity.{IsFresh-of_any}
use todo_rust.Storage.TodoRepo.Lookups.{find-append, find-deleted_at, find-updated_at}

pub book-updated :
    (now : Time) (set : TodoRow → TodoRow) (user : UserId) (id : TodoId) (t : Tables)
    (row : TodoRow)
    → ((r : TodoRow) → (set r).id ≡ r.id)
    → ((r : TodoRow) → (set r).owner_id ≡ r.owner_id)
    → row_of user id t ≡ some row
    → book_of user (record t { todos = updated now set user id t.todos })
      ≡ put id.uuid (some (row_to_todo (touched now set row))) (book_of user t)
book-updated now set user id t row same_id same_owner met = fun_ext λ k.
    ground
      (arith, met, find-updated_at user (record { uuid = k }) now set id same_id same_owner t.todos)

pub book-updated-none :
    (now : Time) (set : TodoRow → TodoRow) (user : UserId) (id : TodoId) (t : Tables)
    → ((r : TodoRow) → (set r).id ≡ r.id)
    → ((r : TodoRow) → (set r).owner_id ≡ r.owner_id)
    → row_of user id t ≡ none
    → book_of user (record t { todos = updated now set user id t.todos }) ≡ book_of user t
book-updated-none now set user id t same_id same_owner missed = fun_ext λ k. ground (
  arith,
  missed,
  find-updated_at user (record { uuid = k }) now set id same_id same_owner t.todos,
)

pub book-inserted :
    (user : UserId) (row : TodoRow) (t : Tables)
    → any (λ r. r.id == row.id) t.todos ≡ false
    → row.owner_id ≡ user.uuid
    → book_of user (record t { todos = t.todos ++ row ∷ [] })
      ≡ put row.id (some (row_to_todo row)) (book_of user t)
book-inserted user row t unused owner = fun_ext λ k. ground (
  arith,
  find-append user (record { uuid = k }) row t.todos (IsFresh-of_any row.id t.todos unused) owner,
)

pub book-deleted :
    (user : UserId) (id : TodoId) (t : Tables)
    → book_of user (record t { todos = select (λ r. not (is_row user id r)) t.todos })
      ≡ put id.uuid none (book_of user t)
book-deleted user id t =
    fun_ext λ k. ground (arith, find-deleted_at user (record { uuid = k }) id t.todos)

pub put-none : (id : TodoId) (book : Book) → book id.uuid ≡ none → put id.uuid none book ≡ book
put-none id book h = fun_ext λ k. ground (arith, h)
