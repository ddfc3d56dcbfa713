-- ===== src/Storage.antt =====
-- crates/storage/src/lib.rs and migrations/: the tables, the errors, and how a statement reaches
-- Postgres. A statement is a function on the tables; what the connection does to it is a `Link`.
pub mod Queries
pub mod TodoRepo
pub mod UserRepo
use todo_rust.Prelude.{Bool, List, Option, [], ◌∷◌}
use todo_rust.Domain.{Time, Uuid}
use todo_rust.Prelude.Exec.{Exec, Result, err, map_err}
use todo_rust.Text.{Text}

-- The errors of `sqlx` that the program tells apart or passes on.
pub data SqlxError : Type 0 where
  unique_violation check_violation foreign_key_violation broken_link : SqlxError

pub data StorageError : Type 0 where
  not_found : StorageError
  conflict : Text → StorageError
  invalid_credentials : StorageError
  hashing : StorageError
  migrate : Text → StorageError
  database : SqlxError → StorageError
  join_error : Text → StorageError

-- A row of `todos`.
pub record TodoRow : Type 0 where
  pub id : Uuid
  pub owner_id : Uuid
  pub title : Text
  pub completed : Bool
  pub created_at : Time
  pub updated_at : Time

-- A row of `users`.
pub record UserRow : Type 0 where
  pub id : Uuid
  pub email : Text
  pub password_hash : Text
  pub created_at : Time
  pub updated_at : Time
  pub locale : Option Text
  pub timezone : Option Text

pub record Tables : Type 0 where
  pub users : List UserRow
  pub todos : List TodoRow

-- What the network does to one command: it is answered, it does not arrive, or it is carried out
-- and the answer is lost.
pub data Link : Type 0 where
  up down reply_lost : Link

abbrev pub next_link : List Link → Link
next_link [] = up
next_link (l ∷ ls) = l

abbrev pub rest_links : List Link → List Link
rest_links [] = []
rest_links (l ∷ ls) = ls

-- Postgres as the program sees it: the tables, and the fate of the commands to come (all are
-- answered once the list is used up).
pub record Database : Type 0 where
  pub tables : Tables
  pub links : List Link

abbrev pub Statement : Type 0 → Type 0
Statement A = Tables → Result SqlxError A × Tables

abbrev deliver : {A : Type 0} → Link → Statement A → Database → Result SqlxError A × Database
deliver up statement db =
    let (r, t) = statement db.tables in (r, record { tables = t; links = rest_links db.links })
deliver down statement db =
    (err broken_link, record { tables = db.tables; links = rest_links db.links })
deliver reply_lost statement db =
    (err broken_link, record { tables = (statement db.tables).1; links = rest_links db.links })

unfoldable pub run_sql : {A : Type 0} → Statement A → Exec SqlxError Database A
run_sql statement db = deliver (next_link db.links) statement db

-- `.await?` on a query: `StorageError::from`.
abbrev pub query : {A : Type 0} → Statement A → Exec StorageError Database A
query statement = map_err database (run_sql statement)
