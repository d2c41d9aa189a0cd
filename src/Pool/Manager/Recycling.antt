-- ===== src/Pool/Manager/Recycling.antt =====
-- `shouldRecycleProcess`.
use celery_to_go.Prelude.{ℕ, true, ◌≡◌, ◌⊎◌, ◌↔◌, arith}
use celery_to_go.Prelude.Int.{pos, ◌+ℤ◌, ◌<ℤ◌, ◌≤ℤ◌, +ℤ_parts}
use celery_to_go.Pool.Types.{PoolConfig, ProcessStats, idle, error}
use celery_to_go.Pool.Manager.State.{is_worn_out}

-- The reasons to recycle a process, for positive limits.
abbrev pub IsWornOut : PoolConfig → ℕ → ProcessStats → Type 0
IsWornOut config now s =
    (config.max_tasks_per_process ≤ℤ s.tasks_processed)
    ⊎ (((s.state ≡ idle) × (pos s.last_task_time +ℤ config.max_idle_time <ℤ pos now))
        ⊎ ((pos s.start_time +ℤ config.max_process_age <ℤ pos now) ⊎ (s.state ≡ error)))

-- With positive limits, the test for recycling holds exactly when the process has served its
-- number of tasks, or is idle with its last task longer ago than the limit, or is older than the
-- limit, or is in the error state.
pub is_worn_out_iff :
    (config : PoolConfig) (now : ℕ) (s : ProcessStats)
    → pos 1 ≤ℤ config.max_tasks_per_process
    → pos 1 ≤ℤ config.max_idle_time
    → pos 1 ≤ℤ config.max_process_age
    → (is_worn_out config now s ≡ true) ↔ IsWornOut config now s
unfolding is_worn_out
is_worn_out_iff config now s tasks idle_time age = (λ h. ground arith, λ h. ground arith)

-- For an idle process whose last task has the zero time, as it has before the first task, the
-- test for recycling holds as soon as the clock has passed a positive idle limit, however short
-- ago the process was started.
pub fresh_process_worn_out :
    (config : PoolConfig) (now : ℕ) (s : ProcessStats)
    → pos 1 ≤ℤ config.max_idle_time
    → config.max_idle_time <ℤ pos now
    → s.state ≡ idle
    → s.last_task_time ≡ 0
    → is_worn_out config now s ≡ true
unfolding is_worn_out
fresh_process_worn_out config now s limit past at_rest never =
    ground (arith, +ℤ_parts (pos s.last_task_time) config.max_idle_time)
