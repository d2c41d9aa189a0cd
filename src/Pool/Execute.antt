-- ===== src/Pool/Execute.antt =====
-- `ExecuteTask` and `Stats` of `ProcessPool` in internal/pool/python/pool.go: the side of the
-- caller, which hands a request to a worker goroutine and waits for its answer.
pub mod Counting
mod Examples
use celery_to_go.Prelude.{ℕ, true, false, Option, none, some, if◌then◌else◌}
use celery_to_go.Prelude.Int.{pos, ◌+ℤ◌}
use celery_to_go.Prelude.Errors.{Error, wrap, Reply, failed}
use celery_to_go.Protocol.Payload.{TaskPayload, ResultPayload, Protocol}
use celery_to_go.Pool.Types.{PoolStats}
use celery_to_go.Pool.Process.State.{Os}
use celery_to_go.Pool.Config.{ProcessPool}
use celery_to_go.Pool.Manager.{serve_request}

-- What the two `select`s see first: no cancellation, or one before a worker takes the request, or
-- one before its answer.
pub data Cancellation : Type 0 where
  not_canceled : Cancellation
  before_send : Error → Cancellation
  before_result : Error → Cancellation

abbrev pub count_task : ProcessPool → ProcessPool
count_task pool = record pool {
  stats = record pool.stats { total_tasks_processed = pool.stats.total_tasks_processed +ℤ pos 1 };
}

-- A copy of the statistics.
pub stats : ProcessPool → PoolStats
stats pool = pool.stats

module _ (os : Os) (protocol : Protocol) where
  open os use {World}

  -- A request that a worker has taken is served, whether the caller still waits or not; here no other
  -- goroutine works on the pool meanwhile. Once `Stop` has closed the channel, its worker goroutines have
  -- come to their ends here: nobody takes the request, and a call that is not canceled never returns,
  -- which is `none`, as is a call without enough fuel.
  pub execute_task :
      ℕ
      → Cancellation
      → TaskPayload
      → ProcessPool
      → World
      → Option (Reply ResultPayload × ProcessPool × World)
  execute_task fuel (before_send e) task pool w =
      some (failed (wrap "context canceled while waiting to send task to queue" e), pool, w)
  execute_task fuel not_canceled task pool w =
      if pool.is_shut_down then none else elim (serve_request os protocol fuel task pool w) [
        | none ↦ none
        | some (result, pool', w') ↦ some (result, count_task pool', w')
      ]
  execute_task fuel (before_result e) task pool w =
      if pool.is_shut_down
      then some (failed (wrap "context canceled while waiting for task result" e), pool, w)
      else elim (serve_request os protocol fuel task pool w) [
        | none ↦ none
        | some (_, pool', w') ↦
            some (failed (wrap "context canceled while waiting for task result" e), pool', w')
      ]
