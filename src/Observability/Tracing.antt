-- ===== src/Observability/Tracing.antt =====
-- internal/observability/tracing/tracer.go. OpenTelemetry is a parameter; the constant options of the
-- exporter, the batcher and the propagators are left out, and so are the functions that only pass a
-- call on to the library's current span. `DefaultTracer` is a state, `none` where it is nil.
pub mod Default
use celery_to_go.Prelude.{
  ℕ, String, Bool, true, false, ◌&&◌, ◌||◌, Option, none, some, ◌%◌, ◌^◌, ltb, leb, ◌==◌,
  if◌then◌else◌,
}
use celery_to_go.Prelude.Errors.{Error, wrap, Reply, reply, failed}

-- `sample_rate` is the 64 bits of a float64.
pub record Config : Type 0 where
  pub service_name : String
  pub service_version : String
  pub environment : String
  pub otlp_endpoint : String
  pub enabled : Bool
  pub sample_rate : ℕ

-- What the program uses of OpenTelemetry.
pub record Otel : Type 1 where
  pub World : Type 0
  pub Context : Type 0
  pub Span : Type 0
  pub Resource : Type 0
  pub Exporter : Type 0
  pub Provider : Type 0
  pub SpanTracer : Type 0
  pub noop_tracer : SpanTracer
  pub new_resource : (name version environment : String) → World → Reply Resource × World
  pub new_exporter : (endpoint : String) → World → Reply Exporter × World
  pub new_provider : (sample_rate : ℕ) → Exporter → Resource → World → Provider × World
  pub set_globals : Provider → World → World
  pub provider_tracer : Provider → (name : String) → SpanTracer
  pub start_span : SpanTracer → Context → (name : String) → World → (Context × Span) × World
  pub shutdown_provider : Provider → Context → World → Option Error × World

-- `1.0`
abbrev pub one_float : ℕ
one_float = 0x3FF0000000000000

-- `x <= 0` on a float64: the zeros and the negative numbers, and no NaN.
unfoldable pub float_le_zero : ℕ → Bool
float_le_zero x =
    let magnitude = x % 2 ^ 63 in
    ltb magnitude 1 || (leb (2 ^ 63) x && leb magnitude 0x7FF0000000000000)

abbrev or_text : String → String → String
or_text default s = if s == "" then default else s

unfoldable pub set_defaults : Config → Config
set_defaults config = record config {
  service_name = or_text "celery-go-worker" config.service_name;
  service_version = or_text "unknown" config.service_version;
  environment = or_text "development" config.environment;
  otlp_endpoint = or_text "localhost:4317" config.otlp_endpoint;
  sample_rate = if float_le_zero config.sample_rate then one_float else config.sample_rate;
}

module _ (otel : Otel) where
  open otel use {
    World, Context, Span, Resource, Exporter, Provider, SpanTracer, noop_tracer, new_resource,
    new_exporter, new_provider, set_globals, provider_tracer, start_span, shutdown_provider,
  }

  pub record OpenTelemetryTracer : Type 0 where
    pub tracer : SpanTracer
    pub tp : Option Provider
    pub config : Option Config

  with_exporter : Config → Resource → World → Reply OpenTelemetryTracer × World
  with_exporter config res w =
      let (exporter, w') = new_exporter config.otlp_endpoint w in
      elim exporter [
        | failed e ↦ (failed (wrap "failed to create OTLP exporter" e), w')
        | reply x ↦
            let (tp, w'') = new_provider config.sample_rate x res w' in
            (
              reply (record {
                tracer = provider_tracer tp config.service_name;
                tp = some tp;
                config = some config;
              }),
              set_globals tp w'',
            )
      ]

  with_resource : Config → World → Reply OpenTelemetryTracer × World
  unfolding with_exporter
  with_resource config w =
      let (res, w') =
        new_resource config.service_name config.service_version config.environment w in
      elim res [
        | failed e ↦ (failed (wrap "failed to create resource" e), w')
        | reply x ↦ with_exporter config x w'
      ]

  pub new_open_telemetry_tracer : Config → World → Reply OpenTelemetryTracer × World
  unfolding with_resource
  new_open_telemetry_tracer config w =
      if config.enabled
      then with_resource (set_defaults config) w
      else (reply (record { tracer = noop_tracer; tp = none; config = some config }), w)

  -- The method `Shutdown`.
  pub shutdown_tracer : Context → OpenTelemetryTracer → World → Option Error × World
  shutdown_tracer ctx t w = elim t.tp [ none ↦ (none, w) | some tp ↦ shutdown_provider tp ctx w ]

  abbrev pub DefaultTracer : Type 0
  DefaultTracer = Option OpenTelemetryTracer

  pub init_tracer : Config → DefaultTracer → World → Option Error × DefaultTracer × World
  init_tracer config default w =
      let (r, w') = new_open_telemetry_tracer config w in
      elim r [ failed e ↦ (some e, default, w') | reply t ↦ (none, some t, w') ]

  -- The config of the tracer that stands in is the zero value, which is never read.
  abbrev lazy_tracer : DefaultTracer → OpenTelemetryTracer
  lazy_tracer none = record { tracer = noop_tracer; tp = none; config = none }
  lazy_tracer (some t) = t

  -- The function `Start`, which calls the method of the tracer.
  pub start : Context → String → DefaultTracer → World → (Context × Span) × DefaultTracer × World
  start ctx name default w =
      let t = lazy_tracer default in
      let (span, w') = start_span t.tracer ctx name w in (span, some t, w')

  -- The function `Shutdown`.
  pub shutdown : Context → DefaultTracer → World → Option Error × World
  unfolding shutdown_tracer
  shutdown ctx default w = elim default [ none ↦ (none, w) | some t ↦ shutdown_tracer ctx t w ]
