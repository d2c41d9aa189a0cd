-- ===== src/Observability/Metrics/Examples.antt =====
-- The theorems on metrics at a concrete library, whose outside world is the number of its calls.
use celery_to_go.Prelude.{ℕ, ◌≡◌, refl, true, false, none, some, List, [], ◌∷◌}
use celery_to_go.Prelude.Int.{pos}
use celery_to_go.Observability.Samples.{prometheus}
use celery_to_go.Observability.Metrics.{
  Config, Metrics, init_metrics, new_metrics, new_enabled_metrics, start_server, ◌>>=◌,
  set_defaults, shutdown, shutdown_metrics,
}
use celery_to_go.Observability.Metrics.Safety.{
  Observation, task_received, task_lasted, processes_idle, observe_all, observe_all_total,
}

abbrev enabled : Config
enabled = record {
  enabled = true;
  namespace = "celery_go";
  subsystem = "";
  http_endpoint = ":9090";
}

abbrev observations : List Observation
observations = task_received "q" "add" ∷ task_lasted "q" "add" (pos 5) ∷ processes_idle (pos 1) ∷ []

abbrev collected : Metrics prometheus
collected = record {
  tasks_received = some tt;
  tasks_processed = some tt;
  tasks_succeeded = some tt;
  tasks_failed = some tt;
  tasks_retried = some tt;
  task_duration = some tt;
  processes_total = some tt;
  processes_idle = some tt;
  processes_busy = some tt;
  processes_starting = some tt;
  processes_stopping = some tt;
  processes_error = some tt;
  message_groups_active = some tt;
  message_groups_processing = some tt;
  config = enabled;
  server = some tt;
}

initialized : init_metrics prometheus enabled 0 ≡ some (some collected, 0)
unfolding init_metrics new_metrics new_enabled_metrics start_server ◌>>=◌ set_defaults
initialized = refl

observe_all_total_example :
    (w : ℕ) × (observe_all prometheus observations (some collected) 0 ≡ some (tt, w))
    × (enabled.enabled ≡ false → w ≡ 0)
observe_all_total_example =
    observe_all_total prometheus enabled observations (some collected) 0 0 initialized

closed : shutdown prometheus (some collected) 3 ≡ (none, 3)
unfolding shutdown shutdown_metrics
closed = refl
