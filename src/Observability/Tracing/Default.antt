-- ===== src/Observability/Tracing/Default.antt =====
-- The default tracer of internal/observability/tracing/tracer.go over several calls.
use celery_to_go.Prelude.{
  String, Bool, true, false, List, [], ◌∷◌, ◌≡◌, inl, inr, refl, Option, none, some, Bool-cases,
}
use celery_to_go.Prelude.Errors.{Error, wrap, Reply, reply, failed, Reply-cases}
use celery_to_go.Observability.Tracing.{
  Config, Otel, OpenTelemetryTracer, DefaultTracer, new_open_telemetry_tracer, with_resource,
  with_exporter, shutdown_tracer, init_tracer, start, shutdown,
}

module _ (otel : Otel) where
  open otel use {World, Context}

  -- Several spans, one after the other, each in the context that comes in.
  pub spans : Context → List String → DefaultTracer otel → World → DefaultTracer otel × World
  spans ctx [] default w = (default, w)
  spans ctx (name ∷ names) default w =
      let (_, default', w') = start otel ctx name default w in spans ctx names default' w'

  -- A default tracer that exports nothing: none at all, or one without a provider.
  abbrev pub IsSilent : DefaultTracer otel → Type 0
  IsSilent default = elim default [ none ↦ Unit | some t ↦ t.tp ≡ none ]

  start-IsSilent :
      (ctx : Context) (name : String) (default : DefaultTracer otel) (w : World)
      → IsSilent default
      → IsSilent (start otel ctx name default w).1
  unfolding start
  start-IsSilent ctx name none w h = refl
  start-IsSilent ctx name (some t) w h = h

  spans-IsSilent :
      (ctx : Context) (names : List String) (default : DefaultTracer otel) (w : World)
      → IsSilent default
      → IsSilent (spans ctx names default w).0
  unfolding spans
  spans-IsSilent ctx [] default w h = h
  spans-IsSilent ctx (name ∷ names) default w h =
      spans-IsSilent ctx names _ _ (start-IsSilent ctx name default w h)

  shutdown_silent :
      (ctx : Context) (default : DefaultTracer otel) (w : World)
      → IsSilent default
      → shutdown otel ctx default w ≡ (none, w)
  unfolding shutdown shutdown_tracer
  shutdown_silent ctx none w h = refl
  shutdown_silent ctx (some t) w h = rw h refl

  -- A program whose default tracer exports nothing can start any number of spans, also before the
  -- tracer is initialized, and the shutdown of tracing after them reports no error and does nothing.
  pub shutdown-spans :
      (ctx : Context) (names : List String) (default : DefaultTracer otel) (w : World)
      → IsSilent default
      → let r = spans ctx names default w in shutdown otel ctx r.0 r.1 ≡ (none, r.1)
  shutdown-spans ctx names default w h =
      shutdown_silent ctx _ _ (spans-IsSilent ctx names default w h)

  abbrev has_provider : OpenTelemetryTracer otel → Bool
  has_provider t = elim t.tp [ none ↦ false | some _ ↦ true ]

  -- What `NewOpenTelemetryTracer` gives, where tracing is enabled or not.
  data Made : Bool → Reply (OpenTelemetryTracer otel) → Type 0 where
    resource_failed : (e : Error) → Made true (failed (wrap "failed to create resource" e))
    exporter_failed : (e : Error) → Made true (failed (wrap "failed to create OTLP exporter" e))
    made : {b : Bool} (t : OpenTelemetryTracer otel) → has_provider t ≡ b → Made b (reply t)

  with_exporter-Made :
      (config : Config) (res : otel.Resource) (w : World)
      → Made true (with_exporter otel config res w).0
  unfolding with_exporter
  with_exporter-Made config res w =
      elim (Reply-cases (otel.new_exporter config.otlp_endpoint w).0) [
        | inr (e, bad) ↦ rw (bad, with_exporter) (exporter_failed e)
        | inl (y, good) ↦ rw (good, with_exporter) (made _ refl)
      ]

  with_resource-Made : (config : Config) (w : World) → Made true (with_resource otel config w).0
  unfolding with_resource
  with_resource-Made config w =
      let made_resource =
        otel.new_resource config.service_name config.service_version config.environment w in
      elim (Reply-cases made_resource.0) [
        | inr (e, bad) ↦ rw (bad, with_resource) (resource_failed e)
        | inl (x, good) ↦ rw (good, with_resource) (with_exporter-Made config x _)
      ]

  new_open_telemetry_tracer-Made :
      (config : Config) (w : World)
      → Made config.enabled (new_open_telemetry_tracer otel config w).0
  unfolding new_open_telemetry_tracer
  new_open_telemetry_tracer-Made config w = elim (Bool-cases config.enabled) [
    | inl on ↦ rw (on, new_open_telemetry_tracer) (with_resource-Made _ w)
    | inr off ↦ rw (off, new_open_telemetry_tracer) (made _ refl)
  ]

  -- `InitTracer` keeps the tracer there was and says what failed, or sets a new one.
  pub data Initialized (before : DefaultTracer otel)
      : Bool → Option Error → DefaultTracer otel → Type 0 where
    no_resource :
        (e : Error) → Initialized before true (some (wrap "failed to create resource" e)) before
    no_exporter :
        (e : Error)
        → Initialized before true (some (wrap "failed to create OTLP exporter" e)) before
    set :
        {enabled : Bool} (t : OpenTelemetryTracer otel)
        → has_provider t ≡ enabled
        → Initialized before enabled none (some t)

  -- For any configuration, `InitTracer` either sets a new default tracer, which exports if and only if
  -- tracing is enabled, or leaves the tracer that there was, which happens only if tracing is enabled,
  -- and reports that the resource or that the exporter could not be made.
  pub init_tracer-Initialized :
      (config : Config) (default : DefaultTracer otel) (w : World)
      → let r = init_tracer otel config default w in Initialized default config.enabled r.0 r.1
  unfolding init_tracer
  init_tracer-Initialized config default w =
      kept config.enabled _ refl (new_open_telemetry_tracer-Made config w)
    where
      kept :
          (b : Bool) (r : Reply (OpenTelemetryTracer otel))
          → (new_open_telemetry_tracer otel config w).0 ≡ r
          → Made b r
          → let i = init_tracer otel config default w in Initialized default b i.0 i.1
      kept b r e (resource_failed x) = rw (e, init_tracer) (no_resource x)
      kept b r e (exporter_failed x) = rw (e, init_tracer) (no_exporter x)
      kept b r e (made t provider) = rw (e, init_tracer) (set t provider)
