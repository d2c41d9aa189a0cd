-- ===== src/Pool/Types.antt =====
-- The types of internal/pool/pool.go. A time is a number of nanoseconds since Go's zero time, a
-- duration a number of nanoseconds. `MemoryUsage` and `CPUUsage` are never written or read by the
-- program and are left out.
use celery_to_go.Prelude.{ℕ, String, List}
use celery_to_go.Prelude.Int.{ℤ}
use celery_to_go.Prelude.Dict.{Dict}

pub data ProcessState : Type 0 where
  idle busy starting stopping stopped error : ProcessState

pub record ProcessStats : Type 0 where
  pub pid : ℤ
  pub state : ProcessState
  pub start_time : ℕ
  pub tasks_processed : ℤ
  pub last_task_time : ℕ
  pub current_task_id : String
  pub current_task_start_time : ℕ

pub record PoolConfig : Type 0 where
  pub min_processes : ℤ
  pub max_processes : ℤ
  pub max_tasks_per_process : ℤ
  pub max_idle_time : ℤ
  pub max_process_age : ℤ
  pub process_startup_timeout : ℤ
  pub process_shutdown_timeout : ℤ
  pub task_execution_timeout : ℤ
  pub process_env : List String
  pub python_path : String
  pub worker_script_path : String

pub record PoolStats : Type 0 where
  pub total_processes : ℤ
  pub idle_processes : ℤ
  pub busy_processes : ℤ
  pub starting_processes : ℤ
  pub stopping_processes : ℤ
  pub total_tasks_processed : ℤ
  pub process_stats : Dict ProcessStats
