-- ===== src/Observability/Examples.antt =====
-- The theorems on logging and tracing at concrete libraries: the outside world is the list of the spans,
-- or the last level that was set.
use celery_to_go.Prelude.{◌≡◌, refl, true, false, none, []}
use celery_to_go.Observability.Logging.{level_of, info_level, error_level, set_level}
use celery_to_go.Observability.Samples.{last_level, otel}
use celery_to_go.Observability.Tracing as Tracing
use celery_to_go.Observability.Tracing.{Otel, float_le_zero, init_tracer, shutdown}
use celery_to_go.Observability.Tracing.Default.{Initialized, init_tracer-Initialized}

unknown_level : set_level last_level "verbose" tt error_level ≡ info_level
unfolding set_level level_of
unknown_level = refl

abbrev traced : Tracing.Config
traced = record {
  service_name = "";
  service_version = "";
  environment = "";
  otlp_endpoint = "nowhere";
  enabled = true;
  sample_rate = 0;
}

init_tracer-Initialized_example :
    let r = init_tracer otel traced none [] in Initialized otel none true r.0 r.1
init_tracer-Initialized_example = init_tracer-Initialized otel traced none []

no_sampling : (float_le_zero 0 ≡ true) × (float_le_zero 0x3FE0000000000000 ≡ false)
unfolding float_le_zero
no_sampling = (refl, refl)
