-- ===== src/Storage/Queries.antt =====
-- What a query may do to the tables, whatever the network does.
use todo_rust.Prelude.{arith, ◌≡◌, ◌⊎◌}
use todo_rust.Storage.{Database, Statement, run_sql}

-- The tables after a statement are those before it or those that it makes.
pub tables-run_sql :
    {A : Type 0} (statement : Statement A) (db : Database)
    → ((run_sql statement db).1.tables ≡ db.tables)
      ⊎ ((run_sql statement db).1.tables ≡ (statement db.tables).1)
unfolding run_sql
tables-run_sql statement db = ground arith
