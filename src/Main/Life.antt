-- ===== src/Main/Life.antt =====
-- `setupObservability` and `main` of cmd/worker/main.go. The program is cut where it waits for its
-- signal: `start_up` is what it does before, `shut_down` what it does after, deferred calls
-- included, and `serve` is whatever becomes of it in between. Messages of the log are left out, but
-- a fatal one ends the program with the code 1, without its deferred calls.
pub mod Shutdown
pub mod Started
use celery_to_go.Prelude.{ℕ, String, Bool, true, false, Option, none, some, List, if◌then◌else◌}
use celery_to_go.Prelude.Errors.{Error, Result, ok, err, panic, Reply}
use celery_to_go.Protocol.Payload.{Protocol}
use celery_to_go.Broker.Config.{Broker}
use celery_to_go.Broker.Client.{Client}
use celery_to_go.Broker.Requests.{connect, close}
use celery_to_go.Pool.Process.State.{Os}
use celery_to_go.Pool.Config.{ProcessPool}
use celery_to_go.Pool.Manager.{start_pool, stop_pool}
use celery_to_go.Worker.Types.{Worker}
use celery_to_go.Worker.Tasks.{stop}
use celery_to_go.Observability.Logging.{Logrus}
use celery_to_go.Observability.Logging.Package.{set_level}
use celery_to_go.Observability.Tracing as Tracing
use celery_to_go.Observability.Tracing.{Otel, init_tracer, one_float}
use celery_to_go.Observability.Metrics as Metrics
use celery_to_go.Observability.Metrics.{Prometheus, init_metrics}
use celery_to_go.Main.Flags.{Config, OrExit, goes_on, exits, Cli, parse_flags}
use celery_to_go.Main.Setup.{setup_broker, setup_process_pool, setup_worker}

-- What the program uses of the outside world. `default_entry` is the entry of `DefaultLogger`.
pub record Outside : Type 1 where
  pub os : Os
  pub client : Client
  pub prometheus : Prometheus
  pub otel : Otel
  pub logrus : Logrus
  pub protocol : Protocol
  pub cli : Cli
  pub load_config : String → Option Error
  pub default_entry : logrus.Entry
  pub background : otel.Context

-- How the program ends: with a code, by a panic, or at the end of `main`.
pub data Ending : Type 0 where
  exited : ℕ → Ending
  panicked : Ending
  returned : Ending

module _ (o : Outside) where
  -- The states of the outside world.
  pub record Worlds : Type 0 where
    pub os : o.os.World
    pub client : o.client.World
    pub prometheus : o.prometheus.World
    pub otel : o.otel.World
    pub logrus : o.logrus.World

  pub record Program : Type 0 where
    pub config : Config
    pub broker : Broker
    pub pool : ProcessPool
    pub worker : Worker
    pub metrics : Metrics.DefaultMetrics o.prometheus
    pub tracer : Tracing.DefaultTracer o.otel
    pub worlds : Worlds

  pub data Start : Type 0 where
    ends : Ending → Start
    runs : Program → Start

  abbrev metrics_config : Config → Metrics.Config
  metrics_config config = record {
    enabled = config.metrics_enabled;
    namespace = "celery_go";
    subsystem = "";
    http_endpoint = config.metrics_endpoint;
  }

  abbrev tracing_config : Config → Tracing.Config
  tracing_config config = record {
    service_name = config.service_name;
    service_version = config.service_version;
    environment = config.environment;
    otlp_endpoint = config.tracing_endpoint;
    enabled = true;
    sample_rate = one_float;
  }

  -- An error of the tracer is only logged.
  setup_tracing : Config → Worlds → Tracing.DefaultTracer o.otel × Worlds
  setup_tracing config w =
      let (_, tracer, otel) = init_tracer o.otel (tracing_config config) none w.otel in
      if config.tracing_enabled then (tracer, record w { otel = otel }) else (none, w)

  -- `none` says that the metrics panic.
  pub setup_observability :
      Config
      → Worlds
      → Option ((Metrics.DefaultMetrics o.prometheus × Tracing.DefaultTracer o.otel) × Worlds)
  unfolding setup_tracing
  setup_observability config w =
      let w' = record w { logrus = set_level o.logrus o.default_entry config.log_level w.logrus } in
      elim (init_metrics o.prometheus (metrics_config config) w'.prometheus) [
        | none ↦ none
        | some (metrics, prometheus) ↦
            let (tracer, w'') = setup_tracing config (record w' { prometheus = prometheus }) in
            some ((metrics, tracer), w'')
      ]

  -- From the start of the pool on.
  start_components :
      Config
      → Broker
      → Metrics.DefaultMetrics o.prometheus
      → Tracing.DefaultTracer o.otel
      → Worlds
      → Start
  start_components config broker metrics tracer w =
      let (e, pool, os) = start_pool o.os o.protocol (setup_process_pool config) w.os in
      elim e [
        | some _ ↦ ends (exited 1)
        | none ↦ runs (record {
          config = config;
          broker = broker;
          pool = pool;
          worker = setup_worker config;
          metrics = metrics;
          tracer = tracer;
          worlds = record w { os = os };
        })
      ]

  start_broker :
      Config → Metrics.DefaultMetrics o.prometheus → Tracing.DefaultTracer o.otel → Worlds → Start
  unfolding start_components
  start_broker config metrics tracer w = elim (setup_broker o.load_config config) [
    | panic ↦ ends panicked
    | err _ ↦ ends (exited 1)
    | ok broker ↦
        let (e, client) = connect o.client broker w.client in
        elim e [
          | some _ ↦ ends (exited 1)
          | none ↦ start_components config broker metrics tracer (record w { client = client })
        ]
  ]

  pub start_up : Worlds → Start
  unfolding start_broker
  start_up w = elim (parse_flags o.cli (o.os.environ w.os)) [
    | exits code ↦ ends (exited code)
    | goes_on config ↦ elim (setup_observability config w) [
      | none ↦ ends panicked
      | some ((metrics, tracer), w') ↦ start_broker config metrics tracer w'
    ]
  ]

  -- The orders are those in which the two calls of `pool.Stop` visit the processes; `in_time` says
  -- whether the loop of the worker ends before the deadline. The errors are only logged.
  pub shut_down : (order order' : List String) (in_time : Bool) → Program → Ending
  shut_down order order' in_time p = elim (stop in_time p.worker) [
    | panic ↦ panicked
    | err _ ↦ panicked
    | ok _ ↦ elim (stop_pool o.os o.protocol order p.pool p.worlds.os) [
      | panic ↦ panicked
      | err _ ↦ panicked
      | ok (pool, os) ↦
          let (_, client) = close o.client p.broker p.worlds.client in
          let (_, prometheus) = Metrics.shutdown o.prometheus p.metrics p.worlds.prometheus in
          let (_, otel) = Tracing.shutdown o.otel o.background p.tracer p.worlds.otel in
          elim (stop_pool o.os o.protocol order' pool os) [
            | panic ↦ panicked
            | err _ ↦ panicked
            | ok _ ↦ returned
          ]
    ]
  ]

  -- `main`, whatever the program is like when its signal comes.
  pub main :
      (order order' : List String) (in_time : Bool) (serve : Program → Program) → Worlds → Ending
  main order order' in_time serve w = elim (start_up w) [
    | ends ending ↦ ending
    | runs p ↦ shut_down order order' in_time (serve p)
  ]
