-- ===== src/Pool/Config/Examples.antt =====
-- The theorem on the settings at the empty configuration.
use celery_to_go.Prelude.{[]}
use celery_to_go.Prelude.Int.{pos}
use celery_to_go.Pool.Types.{PoolConfig}

abbrev nothing_set : PoolConfig
nothing_set = record {
  min_processes = pos 0;
  max_processes = pos 0;
  max_tasks_per_process = pos 0;
  max_idle_time = pos 0;
  max_process_age = pos 0;
  process_startup_timeout = pos 0;
  process_shutdown_timeout = pos 0;
  task_execution_timeout = pos 0;
  process_env = [];
  python_path = "";
  worker_script_path = "worker_process.py";
}
