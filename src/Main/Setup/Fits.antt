-- ===== src/Main/Setup/Fits.antt =====
-- The pool and the worker that the program sets up from its flags.
use celery_to_go.Prelude.{◌≡◌, refl, ◌*◌}
use celery_to_go.Prelude.Int.{pos}
use celery_to_go.Pool.Types.{PoolConfig}
use celery_to_go.Pool.Config.Settled.{IsSetTo, IsMaximum, new_process_pool-IsSettled}
use celery_to_go.Worker.Types.{Worker}
use celery_to_go.Worker.Tasks.{new_default_worker}
use celery_to_go.Main.Flags.{Config, second}
use celery_to_go.Main.Setup.{pool_config, setup_process_pool, worker_config, setup_worker}

-- The settings of the pool are the flags that are positive, or else the defaults.
pub record PoolFits (flags : Config) (config : PoolConfig) : Type 0 where
  pub min_processes : IsSetTo 1 flags.min_processes config.min_processes
  pub max_processes : IsMaximum flags.max_processes config.min_processes config.max_processes
  pub max_tasks_per_process : IsSetTo 100 flags.max_tasks_per_process config.max_tasks_per_process
  pub max_idle_time : IsSetTo (5 * 60 * second) flags.max_idle_time config.max_idle_time
  pub max_process_age : IsSetTo (60 * 60 * second) flags.max_process_age config.max_process_age
  pub process_startup_timeout :
      IsSetTo (30 * second) flags.process_startup_timeout config.process_startup_timeout
  pub process_shutdown_timeout :
      IsSetTo (30 * second) flags.process_shutdown_timeout config.process_shutdown_timeout
  pub task_execution_timeout :
      IsSetTo (5 * 60 * second) flags.task_timeout config.task_execution_timeout
  pub process_env : config.process_env ≡ flags.process_env
  pub python_path : config.python_path ≡ flags.python_path
  pub worker_script_path : config.worker_script_path ≡ flags.worker_script_path

pub setup_process_pool-PoolFits :
    (flags : Config) → PoolFits flags (setup_process_pool flags).config
unfolding setup_process_pool pool_config
setup_process_pool-PoolFits flags =
    let settled = new_process_pool-IsSettled (pool_config flags) in
    record {
      min_processes = settled.min_processes;
      max_processes = settled.max_processes;
      max_tasks_per_process = settled.max_tasks_per_process;
      max_idle_time = settled.max_idle_time;
      max_process_age = settled.max_process_age;
      process_startup_timeout = settled.process_startup_timeout;
      process_shutdown_timeout = settled.process_shutdown_timeout;
      task_execution_timeout = settled.task_execution_timeout;
      process_env = settled.process_env;
      python_path = settled.python_path;
      worker_script_path = settled.worker_script_path;
    }

pub record WorkerFits (flags : Config) (w : Worker) : Type 0 where
  pub concurrency : w.config.concurrency ≡ flags.concurrency
  pub queue_prefetch : w.config.queue_prefetch ≡ flags.queue_prefetch
  pub task_timeout : w.config.task_timeout ≡ flags.task_timeout
  pub shutdown_timeout : w.config.shutdown_timeout ≡ flags.shutdown_timeout
  pub heartbeat_interval : w.config.heartbeat_interval ≡ flags.heartbeat_interval
  pub initial_interval : w.config.retry_backoff.initial_interval ≡ pos (1 * second)
  pub max_interval : w.config.retry_backoff.max_interval ≡ pos (30 * second)
  pub none_received : w.stats.tasks_received ≡ pos 0
  pub none_retried : w.stats.tasks_retried ≡ pos 0
  pub none_finished : (w.stats.tasks_succeeded ≡ pos 0) × (w.stats.tasks_failed ≡ pos 0)

pub setup_worker-WorkerFits : (flags : Config) → WorkerFits flags (setup_worker flags)
unfolding setup_worker worker_config new_default_worker
setup_worker-WorkerFits flags = record {
  concurrency = refl;
  queue_prefetch = refl;
  task_timeout = refl;
  shutdown_timeout = refl;
  heartbeat_interval = refl;
  initial_interval = refl;
  max_interval = refl;
  none_received = refl;
  none_retried = refl;
  none_finished = (refl, refl);
}
