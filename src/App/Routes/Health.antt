-- ===== src/App/Routes/Health.antt =====
-- crates/app/src/routes/health.rs, and `ping` of crates/storage/src/pool.rs.
use todo_rust.Prelude.{List, [], ℕ, ◌∷◌}
use todo_rust.App.Http.{Response}
use todo_rust.Metrics.{Metric}
use todo_rust.Prelude.Exec.{Exec, Result, err, ok, pure, ◌>>◌}
use todo_rust.Storage.{Database, StorageError, query}
use todo_rust.Text.{Text, codes}

-- `SELECT 1`
unfoldable pub ping : Exec StorageError Database (Unit {0})
ping = do query (λ t. (ok tt, t)); pure tt

abbrev plain : ℕ → Text → Response
plain status body = record {
  status = status;
  headers = (codes "content-type", codes "text/plain; charset=utf-8") ∷ [];
  body = body;
}

unfoldable pub liveness : Response
liveness = plain 200 (codes "ok")

abbrev ready_response : Result StorageError (Unit {0}) → Response
ready_response (ok u) = plain 200 (codes "ready")
ready_response (err e) = plain 503 (codes "not ready")

unfoldable pub readiness : Database → Response × Database
unfolding ping
readiness db = let (answer, db') = ping db in (ready_response answer, db')

-- `/metrics`: what the exporter renders.
unfoldable pub metrics_page : (List Metric → Text) → List Metric → Response
metrics_page render recorded = record {
  status = 200;
  headers = (codes "content-type", codes "text/plain; version=0.0.4") ∷ [];
  body = render recorded;
}
