-- ===== src/Observability.antt =====
-- crates/observability/src: the stack of contexts that spans activate, and the guard that shuts the
-- exporters down. The OpenTelemetry SDK and `tracing` are parameters.
pub mod Stack
use todo_rust.Prelude.{
  Bool, List, Option, [], false, if◌then◌else◌, none, some, true, unwrap_or, ℕ, ◌++◌, ◌∷◌,
}
use todo_rust.App.Config.{ObservabilityConfig}
use todo_rust.Prelude.Exec.{Result, err, ok}
use todo_rust.Text.{Text, codes}

pub record SpanContext : Type 0 where
  pub trace_id : ℕ
  pub span_id : ℕ

-- What `tracing_opentelemetry` keeps for a span: the identifiers that it drew, and the parent's.
pub record OtelData : Type 0 where
  pub trace_id : Option ℕ
  pub span_id : Option ℕ
  pub parent : SpanContext

-- A thread: its current context, and for each guard on `GUARD_STACK` the context that dropping the
-- guard restores, the latest first.
pub record Thread : Type 0 where
  pub current : SpanContext
  pub guard_stack : List SpanContext

-- `cx.attach()`, with the guard pushed.
abbrev attach : SpanContext → Thread → Thread
attach cx t = record { current = cx; guard_stack = t.current ∷ t.guard_stack }

-- The context that a span activates.
unfoldable pub span_context : OtelData → SpanContext
span_context d = record {
  trace_id = unwrap_or d.trace_id d.parent.trace_id;
  span_id = unwrap_or d.span_id d.parent.span_id;
}

-- `ctx.span(id)` gives no span, a span without data of OpenTelemetry, or one with it.
pub data SpanRef : Type 0 where
  no_span : SpanRef
  bare : SpanRef
  traced : OtelData → SpanRef

unfoldable pub on_enter : SpanRef → Thread → Thread
unfolding span_context
on_enter no_span t = t
on_enter bare t = attach t.current t
on_enter (traced d) t = attach (span_context d) t

-- `pop()`, which drops the guard.
abbrev drop_guard : List SpanContext → SpanContext → Thread
drop_guard [] cx = record { current = cx; guard_stack = [] }
drop_guard (before ∷ rest) cx = record { current = before; guard_stack = rest }

unfoldable pub on_exit : Thread → Thread
on_exit t = drop_guard t.guard_stack t.current

-- The providers that `init_tracing` built; the guard shuts down each once.
pub record ObservabilityGuard : Type 0 where
  pub tracer_provider : Option ℕ
  pub logger_provider : Option ℕ

pub data ObservabilityError : Type 0 where
  filter_error metrics_error : Text → ObservabilityError
  otlp : Text → ObservabilityError
  already_set : ObservabilityError

-- What both exporters are given: the endpoint, five seconds, and the name of the service.
pub record OtlpSettings : Type 0 where
  pub endpoint : Text
  pub timeout_secs : ℕ
  pub service_name : Text

unfoldable pub otlp_settings : ObservabilityConfig → OtlpSettings
otlp_settings cfg = record {
  endpoint = cfg.otel_endpoint;
  timeout_secs = 5;
  service_name = cfg.service_name;
}

abbrev otlp_error : Text → Result Text ℕ → Result ObservabilityError ℕ
otlp_error what (ok provider) = ok provider
otlp_error what (err e) = err (otlp (what ++ e))

-- `install` is the pipeline of the SDK, which gives a provider or the text of an error.
unfoldable pub build_otlp_tracer_provider :
    (OtlpSettings → Result Text ℕ) → ObservabilityConfig → Result ObservabilityError ℕ
unfolding otlp_settings
build_otlp_tracer_provider install cfg = otlp_error (codes "traces: ") (install (otlp_settings cfg))

unfoldable pub build_otlp_logger_provider :
    (OtlpSettings → Result Text ℕ) → ObservabilityConfig → Result ObservabilityError ℕ
unfolding otlp_settings
build_otlp_logger_provider install cfg = otlp_error (codes "logs: ") (install (otlp_settings cfg))

-- The bounds of the buckets of the durations, in tenths of a millisecond.
unfoldable pub seconds_buckets : List ℕ
seconds_buckets = 10 ∷ 25 ∷ 50 ∷ 100 ∷ 250 ∷ 500 ∷ 1000 ∷ 2500 ∷ 5000 ∷ 10000 ∷ 25000 ∷ 50000 ∷ []

abbrev metrics_failed : {A : Type 0} → Result Text A → Result ObservabilityError A
metrics_failed (ok a) = ok a
metrics_failed (err e) = err (metrics_error e)

-- The builder of the exporter: the buckets of the metrics whose names end so, then the recorder.
unfoldable pub install_metrics_recorder :
    {B : Type 0}
    → (Text → List ℕ → Result Text B)
    → (B → Result Text (Unit {0}))
    → Result ObservabilityError (Unit {0})
install_metrics_recorder set_buckets install_recorder =
    elim (set_buckets (codes "_seconds") seconds_buckets) [
      | err e ↦ err (metrics_error e)
      | ok builder ↦ metrics_failed (install_recorder builder)
    ]

abbrev optional : Bool → Result ObservabilityError ℕ → Result ObservabilityError (Option ℕ)
optional true (ok p) = ok (some p)
optional true (err e) = err e
optional false r = ok none

-- `installed` tells whether a subscriber was there before.
unfoldable pub init_tracing :
    (tracer logger : Result ObservabilityError ℕ)
    → Bool
    → ObservabilityConfig
    → Result ObservabilityError ObservabilityGuard
init_tracing tracer logger installed cfg = elim (optional cfg.otel_enabled tracer) [
  | err e ↦ err e
  | ok tracer_provider ↦ elim (optional cfg.otel_enabled logger) [
    | err e ↦ err e
    | ok logger_provider ↦
        if installed
        then err already_set
        else ok (record { tracer_provider = tracer_provider; logger_provider = logger_provider })
  ]
]

abbrev to_shut : Option ℕ → List ℕ
to_shut none = []
to_shut (some p) = p ∷ []

-- `Drop`: the providers that are shut down, in order.
unfoldable pub drop : ObservabilityGuard → List ℕ
drop g = to_shut g.tracer_provider ++ to_shut g.logger_provider
