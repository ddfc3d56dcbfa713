-- ===== src/Metrics.antt =====
-- The counters and histograms that the crates record through `metrics`, one constructor for each
-- name, with its labels. What is recorded is a list, the oldest first.
use todo_rust.Prelude.{Bool, ℕ}
use todo_rust.Domain.{Time}
use todo_rust.Text.{Text}

pub data CacheOp : Type 0 where
  op_get op_set op_del : CacheOp

pub data CacheResult : Type 0 where
  hit miss decode_error op_error op_ok : CacheResult

pub data Metric : Type 0 where
  cache_operations_total : CacheOp → CacheResult → Metric
  auth_logins_total : Bool → Metric
  auth_signups_total : Bool → Metric
  auth_rate_limited_total : Metric
  todos_created_total todos_toggled_total todos_deleted_total : Metric
  i18n_missing_key_total : Text → Text → Metric
  i18n_locale_total : Text → Metric
  i18n_invalid_tz_total : Metric
  http_requests_total : Text → Text → ℕ → Metric
  http_request_duration_seconds : Text → Text → ℕ → Time → Metric
