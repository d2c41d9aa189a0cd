-- ===== src/Pool/Manager/Counters.antt =====
-- The counters of `PoolStats`: which transitions keep the books, and which do not.
use celery_to_go.Prelude.{
  ℕ, zero, suc, String, ◌≡◌, refl, ap, ◌∙◌, some, Option, inl, inr, Bool-cases, if◌then◌else◌,
}
use celery_to_go.Prelude.Int.{ℤ, pos, ◌+ℤ◌, ◌-ℤ◌, int_laws}
use celery_to_go.Prelude.Dict
use celery_to_go.Prelude.Errors.{Error}
use celery_to_go.Protocol.Payload.{Protocol}
use celery_to_go.Pool.Types.{ProcessState, idle, busy}
use celery_to_go.Pool.Process.State.{Process, Os}
use celery_to_go.Pool.Config.{ProcessPool}
use celery_to_go.Pool.Manager.State.{
  add_process, begin_recycle, end_recycle, count_stopping, return_process_to_idle_pool,
  should_recycle_process,
}
use celery_to_go.Pool.Manager.{
  recycle_process, settle_process, create_process, create_processes, ensure_min_processes,
}
use celery_to_go.Pool.Manager.Steps.{Created, refused, added, create_process-Created}

-- How far the idle and busy processes that are counted are ahead of the total.
abbrev pub gap : ProcessPool → ℤ
gap pool = pool.stats.idle_processes +ℤ pool.stats.busy_processes -ℤ pool.stats.total_processes

-- The books after the counter updates for a recycled process.
abbrev pub busy_after : ProcessState → ℤ → ℤ
busy_after busy n = n -ℤ pos 1
busy_after _ n = n

abbrev pub gap_after : ProcessState → ℤ → ℤ
gap_after idle n = n
gap_after busy n = n
gap_after _ n = n +ℤ pos 1

module _ (os : Os) (protocol : Protocol) where
  open os use {World, now}

  Created-counts :
      (pool pool' : ProcessPool) (e : Option Error)
      → Created pool pool' e
      → (pool'.stats.busy_processes ≡ pool.stats.busy_processes) × (gap pool' ≡ gap pool)
  unfolding add_process
  Created-counts pool pool' e (refused x same) = rw same (refl, refl)
  Created-counts pool pool' e (added p room made) = rw made (refl, omega int_laws)

  create_processes-counts :
      (n : ℕ) (pool : ProcessPool) (w : World)
      → let pool' = (create_processes os protocol n pool w).0 in
        (pool'.stats.busy_processes ≡ pool.stats.busy_processes) × (gap pool' ≡ gap pool)
  unfolding create_processes
  create_processes-counts zero pool w = (refl, refl)
  create_processes-counts (suc n) pool w =
      let (b, g) = Created-counts pool _ _ (create_process-Created os protocol pool w) in
      let (b', g') =
        create_processes-counts n (create_process os protocol pool w).1
          (create_process os protocol pool w).2 in
      (b' ∙ b, g' ∙ g)

  recycled-counts :
      (pool : ProcessPool) (p : Process) (id : String) (s : ProcessState)
      → p.stats.state ≡ s
      → let pool' = end_recycle id (begin_recycle p id pool) in
        (pool'.stats.busy_processes ≡ busy_after s pool.stats.busy_processes)
        × (gap pool' ≡ gap_after s (gap pool))
  unfolding end_recycle begin_recycle count_stopping
  recycled-counts pool p id idle e = rw e (refl, omega int_laws)
  recycled-counts pool p id busy e = rw e (refl, omega int_laws)
  recycled-counts pool p id _ e = rw e (refl, omega int_laws)

  -- Recycling a process that the pool has takes one off the busy count if the state of the process
  -- is busy, and none otherwise; and it keeps the difference between the idle and busy counts together
  -- and the total if that state is idle or busy, and raises the difference by one otherwise.
  pub recycle_process-counts :
      (pool : ProcessPool) (w : World) (id : String) (p : Process)
      → Dict.get pool.processes id ≡ some p
      → let pool' = (recycle_process os protocol id pool w).0 in
        (pool'.stats.busy_processes ≡ busy_after p.stats.state pool.stats.busy_processes)
        × (gap pool' ≡ gap_after p.stats.state (gap pool))
  unfolding recycle_process ensure_min_processes
  recycle_process-counts pool w id p found =
      let (b, g) = recycled-counts pool p id p.stats.state refl in
      let (b', g') = create_processes-counts _ (end_recycle id (begin_recycle p id pool)) _ in
      rw (found, recycle_process) (b' ∙ b, g' ∙ g)

  -- What a worker does after a task, for a process that the pool has and that is idle again: the busy
  -- count goes down by one if the process returns to the idle list, and stays if it is recycled.
  pub settle_process-busy :
      (pool : ProcessPool) (w : World) (id : String) (p : Process)
      → Dict.get pool.processes id ≡ some p
      → p.stats.state ≡ idle
      → (settle_process os protocol id pool w).0.stats.busy_processes ≡ (
          if should_recycle_process (now w) id pool
          then pool.stats.busy_processes
          else pool.stats.busy_processes -ℤ pos 1)
  unfolding settle_process
  settle_process-busy pool w id p found at_rest =
      elim (Bool-cases (should_recycle_process (now w) id pool)) [
        | inl worn ↦ rw worn (
            (recycle_process-counts pool w id p found).0
            ∙ ap (λ s. busy_after s pool.stats.busy_processes) at_rest)
        | inr fit ↦ rw fit (unfold return_process_to_idle_pool in refl)
      ]
