-- ===== src/Pool/Config/Defaults.antt =====
-- The ranges of the settings of a new pool.
use celery_to_go.Prelude.{ℕ, ◌≡◌, arith}
use celery_to_go.Prelude.Int.{ℤ, pos, ◌≤ℤ◌}
use celery_to_go.Pool.Types.{PoolConfig}
use celery_to_go.Pool.Config.{new_process_pool, set_defaults, or_default, set_max_processes}

pub record IsConfigured (config : PoolConfig) : Type 0 where
  pub min_processes : pos 1 ≤ℤ config.min_processes
  pub max_processes : config.min_processes ≤ℤ config.max_processes
  pub max_tasks_per_process : pos 1 ≤ℤ config.max_tasks_per_process
  pub max_idle_time : pos 1 ≤ℤ config.max_idle_time
  pub max_process_age : pos 1 ≤ℤ config.max_process_age
  pub process_startup_timeout : pos 1 ≤ℤ config.process_startup_timeout
  pub process_shutdown_timeout : pos 1 ≤ℤ config.process_shutdown_timeout
  pub task_execution_timeout : pos 1 ≤ℤ config.task_execution_timeout

module _ (x : ℤ) (h : pos 1 ≤ℤ x) (n : ℕ) where
  or_default_kept : or_default n x ≡ x
  unfolding or_default
  or_default_kept = ground arith

set_max_processes_kept : (lower upper : ℤ) → lower ≤ℤ upper → set_max_processes lower upper ≡ upper
unfolding set_max_processes
set_max_processes_kept lower upper h = ground arith

set_defaults_kept : (config : PoolConfig) → IsConfigured config → set_defaults config ≡ config
unfolding set_defaults
set_defaults_kept config h = rw (
  or_default_kept config.min_processes h.min_processes,
  or_default_kept config.max_processes (ground (arith, h.max_processes)),
  set_max_processes_kept config.min_processes config.max_processes h.max_processes,
  or_default_kept config.max_tasks_per_process h.max_tasks_per_process,
  or_default_kept config.max_idle_time h.max_idle_time,
  or_default_kept config.max_process_age h.max_process_age,
  or_default_kept config.process_startup_timeout h.process_startup_timeout,
  or_default_kept config.process_shutdown_timeout h.process_shutdown_timeout,
  or_default_kept config.task_execution_timeout h.task_execution_timeout,
)

set_defaults-IsConfigured : (config : PoolConfig) → IsConfigured (set_defaults config)
unfolding set_defaults or_default set_max_processes
set_defaults-IsConfigured config = record {
  min_processes = ground arith;
  max_processes = ground arith;
  max_tasks_per_process = ground arith;
  max_idle_time = ground arith;
  max_process_age = ground arith;
  process_startup_timeout = ground arith;
  process_shutdown_timeout = ground arith;
  task_execution_timeout = ground arith;
}

-- Whatever the configuration, a new pool wants at least one process and allows at least as many as
-- it wants, and its limits and timeouts are positive; and a pool made from the settings of a new
-- pool keeps them.
pub new_process_pool-IsConfigured :
    (config : PoolConfig)
    → IsConfigured (new_process_pool config).config
      × ((new_process_pool (new_process_pool config).config).config
          ≡ (new_process_pool config).config)
new_process_pool-IsConfigured config =
    unfold new_process_pool in
    (
      set_defaults-IsConfigured config,
      set_defaults_kept (set_defaults config) (set_defaults-IsConfigured config),
    )
