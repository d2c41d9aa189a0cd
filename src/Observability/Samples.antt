-- ===== src/Observability/Samples.antt =====
-- Concrete libraries for logging, tracing and metrics: the outside world is the last level that was
-- set, the list of the spans, and the number of the observations.
use celery_to_go.Prelude.{ℕ, suc, String, none, some, List, ◌∷◌, ◌==◌, if◌then◌else◌}
use celery_to_go.Prelude.Errors.{new, reply, failed}
use celery_to_go.Observability.Logging.{Level, Logrus}
use celery_to_go.Observability.Tracing.{Otel}
use celery_to_go.Observability.Metrics.{Prometheus}

abbrev pub last_level : Logrus
last_level = record {
  World = Level;
  Entry = Unit;
  new_entry = λ w. (tt, w);
  log = λ l m e w. w;
  entry_with_fields = λ f e. e;
  entry_with_error = λ x e. e;
  set_entry_level = λ l e w. l;
}

abbrev pub otel : Otel
otel = record {
  World = List String;
  Context = Unit;
  Span = String;
  Resource = String;
  Exporter = String;
  Provider = String;
  SpanTracer = String;
  noop_tracer = "";
  new_resource = λ name version environment w. (reply name, w);
  new_exporter = λ endpoint w.
      (if endpoint == "nowhere" then failed (new "no endpoint") else reply endpoint, w);
  new_provider = λ rate exporter res w. (exporter, w);
  set_globals = λ p w. w;
  provider_tracer = λ p name. name;
  start_span = λ t ctx name w. ((ctx, name), name ∷ w);
  shutdown_provider = λ p ctx w. (none, "stopped" ∷ w);
}

abbrev pub prometheus : Prometheus
prometheus = record {
  World = ℕ;
  CounterVec = Unit;
  HistogramVec = Unit;
  Gauge = Unit;
  Server = Unit;
  new_counter_vec = λ n s name w. some (tt, w);
  new_histogram_vec = λ n s name w. some (tt, w);
  new_gauge = λ n s name w. some (tt, w);
  inc = λ c q t w. suc w;
  observe_duration = λ h q t d w. suc w;
  set_gauge = λ g n w. suc w;
  serve = λ endpoint w. (tt, w);
  close = λ s w. (none, w);
}
