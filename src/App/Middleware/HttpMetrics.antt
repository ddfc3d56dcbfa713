-- ===== src/App/Middleware/HttpMetrics.antt =====
-- crates/app/src/middleware/http_metrics.rs: one counter and one duration for each response.
use todo_rust.Prelude.{List, Option, [], if◌then◌else◌, unwrap_or, ◌-◌, ◌∷◌}
use todo_rust.App.Http.{Response}
use todo_rust.App.Routes.Todos.Writes.{answer}
use todo_rust.Domain.{Time}
use todo_rust.Metrics.{Metric, http_request_duration_seconds, http_requests_total}
use todo_rust.Text.{Text, codes, starts_with}

-- The route's pattern, or the path; everything below /static is one label.
unfoldable pub label_path : Option Text → Text → Text
label_path matched uri_path =
    let path = unwrap_or matched uri_path in
    if starts_with path (codes "/static") then codes "/static/*" else path

-- `start` and `finish` are the instants before and after the rest of the service; `count_all` counts
-- in its state.
unfoldable pub http_metrics_layer :
    {W : Type 0}
    → (List Metric → W → W)
    → Time
    → Time
    → Text
    → Option Text
    → Text
    → (W → Response × W)
    → W
    → Response × W
http_metrics_layer count_all start finish method matched uri_path next w =
    let label = label_path matched uri_path in
    let (answer, w') = next w in
    (
      answer,
      count_all
          (http_requests_total method label answer.status
            ∷ http_request_duration_seconds method label answer.status (finish - start)
            ∷ [])
          w',
    )
