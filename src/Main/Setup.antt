-- ===== src/Main/Setup.antt =====
-- `setupBroker`, `setupProcessPool` and `setupWorker` of cmd/worker/main.go. The AWS SDK is a
-- parameter: `load_config` is `LoadDefaultConfig` with a region. The SQS client that it makes from
-- that configuration and the endpoint is the client of Broker/Client.
pub mod Broker
pub mod Fits
use celery_to_go.Prelude.{ℕ, ◌*◌, String, Option, none, some}
use celery_to_go.Prelude.Int.{pos}
use celery_to_go.Prelude.Errors.{Error, wrap, Result, ok, err, Reply, reply}
use celery_to_go.Broker.Config as BrokerConfig
use celery_to_go.Broker.Config.{new_sqs_fifo_broker}
use celery_to_go.Pool.Types.{PoolConfig}
use celery_to_go.Pool.Config.{ProcessPool, new_process_pool}
use celery_to_go.Worker.Types.{Worker, WorkerConfig}
use celery_to_go.Worker.Tasks.{new_default_worker}
use celery_to_go.Main.Flags.{Config, second}

-- The fields of the fetch mode and of the prefetch limits are not set.
unfoldable pub broker_config : Config → BrokerConfig.Config
broker_config config = record {
  queue_url = config.queue_url;
  region = config.region;
  endpoint = config.endpoint;
  max_messages = config.max_messages;
  visibility_timeout = config.visibility_timeout;
  wait_time_seconds = config.wait_time_seconds;
  fetch_mode = "";
  batch_size = pos 0;
  max_prefetch = pos 0;
}

unfoldable pub setup_broker :
    (load_config : String → Option Error) → Config → Result BrokerConfig.Broker
setup_broker load_config config = elim (load_config config.region) [
  | some e ↦ err (wrap "failed to load AWS config" e)
  | none ↦ new_sqs_fifo_broker (broker_config config)
]

unfoldable pub pool_config : Config → PoolConfig
pool_config config = record {
  min_processes = config.min_processes;
  max_processes = config.max_processes;
  max_tasks_per_process = config.max_tasks_per_process;
  max_idle_time = config.max_idle_time;
  max_process_age = config.max_process_age;
  process_startup_timeout = config.process_startup_timeout;
  process_shutdown_timeout = config.process_shutdown_timeout;
  task_execution_timeout = config.task_timeout;
  process_env = config.process_env;
  python_path = config.python_path;
  worker_script_path = config.worker_script_path;
}

-- `NewProcessPool` reports no error.
unfoldable pub setup_process_pool : Config → ProcessPool
setup_process_pool config = new_process_pool (pool_config config)

-- The floating-point numbers are 2.0 and 0.5.
unfoldable pub worker_config : Config → WorkerConfig
worker_config config = record {
  concurrency = config.concurrency;
  queue_prefetch = config.queue_prefetch;
  task_timeout = config.task_timeout;
  shutdown_timeout = config.shutdown_timeout;
  retry_backoff = record {
    initial_interval = pos (1 * second);
    max_interval = pos (30 * second);
    multiplier = 0x4000000000000000;
    randomization_factor = 0x3FE0000000000000;
  };
  heartbeat_interval = config.heartbeat_interval;
}

-- `CreateWorker` reports no error.
unfoldable pub setup_worker : Config → Worker
setup_worker config = new_default_worker (worker_config config)
