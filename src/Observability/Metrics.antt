-- ===== src/Observability/Metrics.antt =====
-- internal/observability/metrics/metrics.go. Prometheus and the HTTP server are parameters; the help
-- texts and the buckets are left out. A collector is a pointer, nil where metrics are disabled: to use
-- a nil pointer panics, and so does the registration of a name that is taken. `DefaultMetrics` is a
-- state, `none` where it is nil.
pub mod Safety
mod Examples
use celery_to_go.Prelude.{ℕ, String, Bool, true, false, Option, none, some, ◌==◌, if◌then◌else◌}
use celery_to_go.Prelude.Int.{ℤ}
use celery_to_go.Prelude.Errors.{Error}

pub record Config : Type 0 where
  pub enabled : Bool
  pub namespace : String
  pub subsystem : String
  pub http_endpoint : String

-- What the program uses of Prometheus and of `net/http`. The collectors with labels have the labels
-- "queue" and "task_name"; `new_*` is `none` where the registration panics. `serve` starts the
-- server in a goroutine.
pub record Prometheus : Type 1 where
  pub World : Type 0
  pub CounterVec : Type 0
  pub HistogramVec : Type 0
  pub Gauge : Type 0
  pub Server : Type 0
  pub new_counter_vec : (namespace subsystem name : String) → World → Option (CounterVec × World)
  pub new_histogram_vec :
      (namespace subsystem name : String) → World → Option (HistogramVec × World)
  pub new_gauge : (namespace subsystem name : String) → World → Option (Gauge × World)
  pub inc : CounterVec → (queue task_name : String) → World → World
  pub observe_duration : HistogramVec → (queue task_name : String) → ℤ → World → World
  pub set_gauge : Gauge → ℤ → World → World
  pub serve : (endpoint : String) → World → Server × World
  pub close : Server → World → Option Error × World

unfoldable pub set_defaults : Config → Config
set_defaults config = record config {
  namespace = if config.namespace == "" then "celery_go" else config.namespace;
  http_endpoint = if config.http_endpoint == "" then ":9090" else config.http_endpoint;
}

module _ (prometheus : Prometheus) where
  open prometheus use {
    World, CounterVec, HistogramVec, Gauge, Server, new_counter_vec, new_histogram_vec, new_gauge,
    inc, observe_duration, set_gauge, serve, close,
  }

  -- A call that may panic.
  abbrev pub Action : Type 0 → Type 0
  Action A = World → Option (A × World)

  infixl 5 ◌>>=◌
  unfoldable pub ◌>>=◌ : {A B : Type 0} → Action A → (A → Action B) → Action B
  (m >>= f) w = elim (m w) [ none ↦ none | some (a, w') ↦ f a w' ]

  abbrev pub pure : {A : Type 0} → A → Action A
  pure a w = some (a, w)

  pub record Metrics : Type 0 where
    pub tasks_received : Option CounterVec
    pub tasks_processed : Option CounterVec
    pub tasks_succeeded : Option CounterVec
    pub tasks_failed : Option CounterVec
    pub tasks_retried : Option CounterVec
    pub task_duration : Option HistogramVec
    pub processes_total : Option Gauge
    pub processes_idle : Option Gauge
    pub processes_busy : Option Gauge
    pub processes_starting : Option Gauge
    pub processes_stopping : Option Gauge
    pub processes_error : Option Gauge
    pub message_groups_active : Option Gauge
    pub message_groups_processing : Option Gauge
    pub config : Config
    pub server : Option Server

  abbrev pub disabled_metrics : Config → Metrics
  disabled_metrics config = record {
    tasks_received = none;
    tasks_processed = none;
    tasks_succeeded = none;
    tasks_failed = none;
    tasks_retried = none;
    task_duration = none;
    processes_total = none;
    processes_idle = none;
    processes_busy = none;
    processes_starting = none;
    processes_stopping = none;
    processes_error = none;
    message_groups_active = none;
    message_groups_processing = none;
    config = config;
    server = none;
  }

  start_server : String → Action (Option Server)
  start_server endpoint w =
      if endpoint == "" then some (none, w) else let (s, w') = serve endpoint w in some (some s, w')

  pub new_enabled_metrics : Config → Action Metrics
  unfolding start_server
  new_enabled_metrics config = do
    tasks_received ← new_counter_vec config.namespace config.subsystem "tasks_received_total"
    tasks_processed ← new_counter_vec config.namespace config.subsystem "tasks_processed_total"
    tasks_succeeded ← new_counter_vec config.namespace config.subsystem "tasks_succeeded_total"
    tasks_failed ← new_counter_vec config.namespace config.subsystem "tasks_failed_total"
    tasks_retried ← new_counter_vec config.namespace config.subsystem "tasks_retried_total"
    task_duration ← new_histogram_vec config.namespace config.subsystem "task_duration_seconds"
    processes_total ← new_gauge config.namespace config.subsystem "processes_total"
    processes_idle ← new_gauge config.namespace config.subsystem "processes_idle"
    processes_busy ← new_gauge config.namespace config.subsystem "processes_busy"
    processes_starting ← new_gauge config.namespace config.subsystem "processes_starting"
    processes_stopping ← new_gauge config.namespace config.subsystem "processes_stopping"
    processes_error ← new_gauge config.namespace config.subsystem "processes_error"
    message_groups_active ← new_gauge config.namespace config.subsystem "message_groups_active"
    message_groups_processing ←
        new_gauge config.namespace config.subsystem "message_groups_processing"
    server ← start_server config.http_endpoint
    pure record {
      tasks_received = some tasks_received;
      tasks_processed = some tasks_processed;
      tasks_succeeded = some tasks_succeeded;
      tasks_failed = some tasks_failed;
      tasks_retried = some tasks_retried;
      task_duration = some task_duration;
      processes_total = some processes_total;
      processes_idle = some processes_idle;
      processes_busy = some processes_busy;
      processes_starting = some processes_starting;
      processes_stopping = some processes_stopping;
      processes_error = some processes_error;
      message_groups_active = some message_groups_active;
      message_groups_processing = some message_groups_processing;
      config = config;
      server = server;
    }

  pub new_metrics : Config → Action Metrics
  new_metrics config =
      if config.enabled
      then new_enabled_metrics (set_defaults config)
      else pure (disabled_metrics config)

  -- The use of a pointer.
  use_pointer : {A : Type 0} → Option A → (A → World → World) → Action Unit
  use_pointer none f w = none
  use_pointer (some a) f w = some (tt, f a w)

  -- The guard of every method.
  if_enabled : Metrics → Action Unit → Action Unit
  if_enabled m action = if m.config.enabled then action else pure tt

  pub observe_task_received : String → String → Metrics → Action Unit
  unfolding if_enabled use_pointer
  observe_task_received queue task_name m =
      if_enabled m (use_pointer m.tasks_received (λ c. inc c queue task_name))

  pub observe_task_processed : String → String → Metrics → Action Unit
  unfolding if_enabled use_pointer
  observe_task_processed queue task_name m =
      if_enabled m (use_pointer m.tasks_processed (λ c. inc c queue task_name))

  pub observe_task_succeeded : String → String → Metrics → Action Unit
  unfolding if_enabled use_pointer
  observe_task_succeeded queue task_name m =
      if_enabled m (use_pointer m.tasks_succeeded (λ c. inc c queue task_name))

  pub observe_task_failed : String → String → Metrics → Action Unit
  unfolding if_enabled use_pointer
  observe_task_failed queue task_name m =
      if_enabled m (use_pointer m.tasks_failed (λ c. inc c queue task_name))

  pub observe_task_retried : String → String → Metrics → Action Unit
  unfolding if_enabled use_pointer
  observe_task_retried queue task_name m =
      if_enabled m (use_pointer m.tasks_retried (λ c. inc c queue task_name))

  pub observe_task_duration : String → String → ℤ → Metrics → Action Unit
  unfolding if_enabled use_pointer
  observe_task_duration queue task_name duration m =
      if_enabled m (use_pointer m.task_duration (λ h. observe_duration h queue task_name duration))

  pub set_processes_total : ℤ → Metrics → Action Unit
  unfolding if_enabled use_pointer
  set_processes_total count m =
      if_enabled m (use_pointer m.processes_total (λ g. set_gauge g count))

  pub set_processes_idle : ℤ → Metrics → Action Unit
  unfolding if_enabled use_pointer
  set_processes_idle count m = if_enabled m (use_pointer m.processes_idle (λ g. set_gauge g count))

  pub set_processes_busy : ℤ → Metrics → Action Unit
  unfolding if_enabled use_pointer
  set_processes_busy count m = if_enabled m (use_pointer m.processes_busy (λ g. set_gauge g count))

  pub set_processes_starting : ℤ → Metrics → Action Unit
  unfolding if_enabled use_pointer
  set_processes_starting count m =
      if_enabled m (use_pointer m.processes_starting (λ g. set_gauge g count))

  pub set_processes_stopping : ℤ → Metrics → Action Unit
  unfolding if_enabled use_pointer
  set_processes_stopping count m =
      if_enabled m (use_pointer m.processes_stopping (λ g. set_gauge g count))

  pub set_processes_error : ℤ → Metrics → Action Unit
  unfolding if_enabled use_pointer
  set_processes_error count m =
      if_enabled m (use_pointer m.processes_error (λ g. set_gauge g count))

  pub set_message_groups_active : ℤ → Metrics → Action Unit
  unfolding if_enabled use_pointer
  set_message_groups_active count m =
      if_enabled m (use_pointer m.message_groups_active (λ g. set_gauge g count))

  pub set_message_groups_processing : ℤ → Metrics → Action Unit
  unfolding if_enabled use_pointer
  set_message_groups_processing count m =
      if_enabled m (use_pointer m.message_groups_processing (λ g. set_gauge g count))

  -- The method `Shutdown`.
  pub shutdown_metrics : Metrics → World → Option Error × World
  shutdown_metrics m w = elim m.server [ none ↦ (none, w) | some s ↦ close s w ]

  abbrev pub DefaultMetrics : Type 0
  DefaultMetrics = Option Metrics

  pub init_metrics : Config → Action DefaultMetrics
  init_metrics config = do m ← new_metrics config; pure (some m)

  -- The functions of the package, which use the default metrics: `method` is the method of the name.
  pub with_default : (Metrics → Action Unit) → DefaultMetrics → Action Unit
  with_default method none w = some (tt, w)
  with_default method (some m) w = method m w

  pub shutdown : DefaultMetrics → World → Option Error × World
  unfolding shutdown_metrics
  shutdown none w = (none, w)
  shutdown (some m) w = shutdown_metrics m w
