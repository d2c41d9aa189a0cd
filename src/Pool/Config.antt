-- ===== src/Pool/Config.antt =====
-- `NewProcessPool` of internal/pool/python/pool.go, and the state that it builds. The maps and
-- counters stand behind mutexes, and `shutdown` is a channel that is closed once.
pub mod Defaults
pub mod Settled
mod Examples
use celery_to_go.Prelude.{ℕ, ◌*◌, String, Bool, false, List, [], if◌then◌else◌}
use celery_to_go.Prelude.Int.{ℤ, pos, ltb_ℤ, leb_ℤ}
use celery_to_go.Prelude.Dict
use celery_to_go.Prelude.Dict.{Dict}
use celery_to_go.Pool.Types.{PoolConfig, PoolStats}
use celery_to_go.Pool.Process.State.{Process}

pub record ProcessPool : Type 0 where
  pub config : PoolConfig
  pub processes : Dict Process
  pub idle_processes : List String
  pub stats : PoolStats
  pub is_shut_down : Bool

abbrev second : ℕ
second = 1_000_000_000

or_default : ℕ → ℤ → ℤ
or_default n x = if leb_ℤ x (pos 0) then pos n else x

set_max_processes : ℤ → ℤ → ℤ
set_max_processes lower upper = if ltb_ℤ upper lower then lower else upper

set_defaults : PoolConfig → PoolConfig
set_defaults config =
    let lower = or_default 1 config.min_processes in
    record config {
      min_processes = lower;
      max_processes = set_max_processes lower (or_default 10 config.max_processes);
      max_tasks_per_process = or_default 100 config.max_tasks_per_process;
      max_idle_time = or_default (5 * 60 * second) config.max_idle_time;
      max_process_age = or_default (60 * 60 * second) config.max_process_age;
      process_startup_timeout = or_default (30 * second) config.process_startup_timeout;
      process_shutdown_timeout = or_default (30 * second) config.process_shutdown_timeout;
      task_execution_timeout = or_default (5 * 60 * second) config.task_execution_timeout;
    }

unfoldable pub new_process_pool : PoolConfig → ProcessPool
unfolding set_defaults or_default set_max_processes
new_process_pool config = record {
  config = set_defaults config;
  processes = Dict.empty;
  idle_processes = [];
  stats = record {
    total_processes = pos 0;
    idle_processes = pos 0;
    busy_processes = pos 0;
    starting_processes = pos 0;
    stopping_processes = pos 0;
    total_tasks_processed = pos 0;
    process_stats = Dict.empty;
  };
  is_shut_down = false;
}
