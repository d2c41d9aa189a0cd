-- ===== src/Pool/Config/Settled.antt =====
-- What a new pool makes of each of its settings.
use celery_to_go.Prelude.{ℕ, ◌*◌, ◌≡◌, ◌⊎◌, refl, inl, inr, arith, Bool-cases}
use celery_to_go.Prelude.Int.{ℤ, pos, ◌≤ℤ◌, ◌<ℤ◌, leb_ℤ, ltb_ℤ}
use celery_to_go.Pool.Types.{PoolConfig}
use celery_to_go.Pool.Config.{new_process_pool, set_defaults, or_default, set_max_processes, second}

-- A positive setting stays, and any other gives way to the default `n`.
abbrev pub IsSetTo : ℕ → ℤ → ℤ → Type 0
IsSetTo n given x = ((pos 1 ≤ℤ given) × (x ≡ given)) ⊎ ((given ≤ℤ pos 0) × (x ≡ pos n))

-- The maximum is no less than the minimum.
abbrev pub IsMaximum : (given lower upper : ℤ) → Type 0
IsMaximum given lower upper =
    (x : ℤ) × IsSetTo 10 given x × (((lower ≤ℤ x) × (upper ≡ x)) ⊎ ((x <ℤ lower) × (upper ≡ lower)))

pub record IsSettled (given config : PoolConfig) : Type 0 where
  pub min_processes : IsSetTo 1 given.min_processes config.min_processes
  pub max_processes : IsMaximum given.max_processes config.min_processes config.max_processes
  pub max_tasks_per_process : IsSetTo 100 given.max_tasks_per_process config.max_tasks_per_process
  pub max_idle_time : IsSetTo (5 * 60 * second) given.max_idle_time config.max_idle_time
  pub max_process_age : IsSetTo (60 * 60 * second) given.max_process_age config.max_process_age
  pub process_startup_timeout :
      IsSetTo (30 * second) given.process_startup_timeout config.process_startup_timeout
  pub process_shutdown_timeout :
      IsSetTo (30 * second) given.process_shutdown_timeout config.process_shutdown_timeout
  pub task_execution_timeout :
      IsSetTo (5 * 60 * second) given.task_execution_timeout config.task_execution_timeout
  pub process_env : config.process_env ≡ given.process_env
  pub python_path : config.python_path ≡ given.python_path
  pub worker_script_path : config.worker_script_path ≡ given.worker_script_path

or_default-IsSetTo : (n : ℕ) (x : ℤ) → IsSetTo n x (or_default n x)
unfolding or_default
or_default-IsSetTo n x = elim (Bool-cases (leb_ℤ x (pos 0))) [
  | inl absent ↦ inr (ground arith, rw (absent, or_default) refl)
  | inr present ↦ inl (ground arith, rw (present, or_default) refl)
]

set_max_processes-IsMaximum :
    (given lower : ℤ) → IsMaximum given lower (set_max_processes lower (or_default 10 given))
unfolding set_max_processes
set_max_processes-IsMaximum given lower =
    let x = or_default 10 given in
    (
      x,
      or_default-IsSetTo 10 given,
      elim (Bool-cases (ltb_ℤ x lower)) [
        | inl less ↦ inr (ground arith, rw (less, set_max_processes) refl)
        | inr enough ↦ inl (ground arith, rw (enough, set_max_processes) refl)
      ],
    )

pub new_process_pool-IsSettled :
    (given : PoolConfig) → IsSettled given (new_process_pool given).config
unfolding new_process_pool set_defaults
new_process_pool-IsSettled given = record {
  min_processes = or_default-IsSetTo 1 given.min_processes;
  max_processes =
      set_max_processes-IsMaximum given.max_processes (or_default 1 given.min_processes);
  max_tasks_per_process = or_default-IsSetTo 100 given.max_tasks_per_process;
  max_idle_time = or_default-IsSetTo (5 * 60 * second) given.max_idle_time;
  max_process_age = or_default-IsSetTo (60 * 60 * second) given.max_process_age;
  process_startup_timeout = or_default-IsSetTo (30 * second) given.process_startup_timeout;
  process_shutdown_timeout = or_default-IsSetTo (30 * second) given.process_shutdown_timeout;
  task_execution_timeout = or_default-IsSetTo (5 * 60 * second) given.task_execution_timeout;
  process_env = refl;
  python_path = refl;
  worker_script_path = refl;
}
