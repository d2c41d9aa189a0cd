-- ===== src/Worker/Types.antt =====
-- The types of internal/worker/worker.go, and the state of `DefaultWorker` of
-- internal/worker/factory.go. A time is a number of nanoseconds since Go's zero time, a duration a
-- number of nanoseconds, and a float64 its 64 bits. The counters are int64 and are not bounded here.
use celery_to_go.Prelude.{ℕ, String, Bool}
use celery_to_go.Prelude.Int.{ℤ}
use celery_to_go.Prelude.Dict.{Dict}
use celery_to_go.Protocol.Payload.{Value, Items, Fields}
use celery_to_go.Pool.Types.{PoolStats}

-- A string type: `no_state` is its zero value "".
pub data TaskState : Type 0 where
  pending running success error retry no_state : TaskState

pub record TaskInfo : Type 0 where
  pub id : String
  pub name : String
  pub state : TaskState
  pub args : Items
  pub kwargs : Fields
  pub queue : String
  pub message_group_id : String
  pub retries : ℤ
  pub max_retries : ℤ
  pub received_at : ℕ
  pub started_at : ℕ
  pub completed_at : ℕ
  pub result : Value
  pub error_text : String
  pub traceback : String
  pub process_id : String

pub record RetryBackoff : Type 0 where
  pub initial_interval : ℤ
  pub max_interval : ℤ
  pub multiplier : ℕ
  pub randomization_factor : ℕ

pub record WorkerConfig : Type 0 where
  pub concurrency : ℤ
  pub queue_prefetch : ℤ
  pub task_timeout : ℤ
  pub shutdown_timeout : ℤ
  pub retry_backoff : RetryBackoff
  pub heartbeat_interval : ℤ

pub record WorkerStats : Type 0 where
  pub start_time : ℕ
  pub tasks_received : ℤ
  pub tasks_succeeded : ℤ
  pub tasks_failed : ℤ
  pub tasks_retried : ℤ
  pub active_tasks : ℤ
  pub pool_stats : PoolStats

-- The broker, the pool and the protocol are no part of the state; `is_shut_down` says that the
-- channel `shutdown` is closed.
pub record Worker : Type 0 where
  pub config : WorkerConfig
  pub stats : WorkerStats
  pub task_infos : Dict TaskInfo
  pub is_shut_down : Bool
