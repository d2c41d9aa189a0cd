-- ===== src/Main/Flags.antt =====
-- `Config` and `parseFlags` of cmd/worker/main.go. The packages `flag`, `path/filepath` and `os` are
-- parameters: `parse` is `flag.Parse` over the arguments of the program, which may end it.
pub mod Checked
use celery_to_go.Prelude.{ℕ, ◌*◌, String, Bool, true, false, List, [], ◌==◌, if◌then◌else◌, not}
use celery_to_go.Prelude.Int.{ℤ, pos}
use celery_to_go.Prelude.Errors.{Error, Reply, reply, failed}

pub record Config : Type 0 where
  pub queue_url : String
  pub region : String
  pub endpoint : String
  pub max_messages : ℤ
  pub visibility_timeout : ℤ
  pub wait_time_seconds : ℤ
  pub message_group_id : String
  pub deduplication_id : String
  pub concurrency : ℤ
  pub queue_prefetch : ℤ
  pub task_timeout : ℤ
  pub shutdown_timeout : ℤ
  pub heartbeat_interval : ℤ
  pub min_processes : ℤ
  pub max_processes : ℤ
  pub max_tasks_per_process : ℤ
  pub max_idle_time : ℤ
  pub max_process_age : ℤ
  pub process_startup_timeout : ℤ
  pub process_shutdown_timeout : ℤ
  pub python_path : String
  pub worker_script_path : String
  pub process_env : List String
  pub log_level : String
  pub metrics_enabled : Bool
  pub metrics_endpoint : String
  pub tracing_enabled : Bool
  pub tracing_endpoint : String
  pub service_name : String
  pub service_version : String
  pub environment : String

-- A call that gives a value, or ends the program with a code.
pub data OrExit {ℓ} (A : Type ℓ) : Type ℓ where
  goes_on : A → OrExit A
  exits : ℕ → OrExit A

-- `abs` is `filepath.Abs`, in the working directory of the program.
pub record Cli : Type 0 where
  pub parse : Config → OrExit Config
  pub is_abs : String → Bool
  pub abs : String → Reply String

abbrev pub second : ℕ
second = 1_000_000_000

-- The values of the flags that are not given.
abbrev pub default_flags : Config
default_flags = record {
  queue_url = "";
  region = "us-east-1";
  endpoint = "";
  max_messages = pos 10;
  visibility_timeout = pos 30;
  wait_time_seconds = pos 20;
  message_group_id = "";
  deduplication_id = "";
  concurrency = pos 10;
  queue_prefetch = pos 10;
  task_timeout = pos (5 * 60 * second);
  shutdown_timeout = pos (30 * second);
  heartbeat_interval = pos (10 * second);
  min_processes = pos 1;
  max_processes = pos 10;
  max_tasks_per_process = pos 100;
  max_idle_time = pos (5 * 60 * second);
  max_process_age = pos (60 * 60 * second);
  process_startup_timeout = pos (30 * second);
  process_shutdown_timeout = pos (30 * second);
  python_path = "python";
  worker_script_path = "scripts/python/worker_process.py";
  process_env = [];
  log_level = "info";
  metrics_enabled = true;
  metrics_endpoint = ":9090";
  tracing_enabled = false;
  tracing_endpoint = "localhost:4317";
  service_name = "celery-go-worker";
  service_version = "0.1.0";
  environment = "development";
}

unfoldable pub resolve_script : Cli → String → String
resolve_script cli path =
    if cli.is_abs path
    then path
    else elim (cli.abs path) [ reply absolute ↦ absolute | failed _ ↦ path ]

-- What `parseFlags` does with the flags that were parsed.
unfoldable pub check_flags : Cli → List String → Config → OrExit Config
check_flags cli environ config =
    if config.queue_url == ""
    then exits 1
    else goes_on (record config {
      worker_script_path = resolve_script cli config.worker_script_path;
      process_env = environ;
    })

unfoldable pub parse_flags : Cli → List String → OrExit Config
parse_flags cli environ = elim (cli.parse default_flags) [
  | exits code ↦ exits code
  | goes_on config ↦ check_flags cli environ config
]
