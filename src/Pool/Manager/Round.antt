-- ===== src/Pool/Manager/Round.antt =====
-- A round of `worker` in which the first idle process serves the task and goes back to the idle list.
use celery_to_go.Prelude.{ℕ, suc, String, ◌≡◌, refl, false, some, List}
use celery_to_go.Prelude.Dict
use celery_to_go.Prelude.Errors.{reply}
use celery_to_go.Protocol.Payload.{TaskPayload, Protocol}
use celery_to_go.Pool.Process.State.{Process, Os}
use celery_to_go.Pool.Process.{execute_task}
use celery_to_go.Pool.Config.{ProcessPool}
use celery_to_go.Pool.Manager.State.{
  pop_idle, take_process, store_process, update_process_stats, should_recycle_process,
  return_process_to_idle_pool,
}
use celery_to_go.Pool.Manager.{serve_request, get_idle_process, answer_request, settle_process}

module _ (os : Os) (protocol : Protocol) where
  open os use {World, now}

  -- The process and the pool after the task.
  abbrev pub after_task : TaskPayload → Process → World → Process
  after_task task p w = (execute_task os protocol task p w).1

  abbrev pub pool_after_task :
      TaskPayload → List String → Process → ProcessPool → World → ProcessPool
  pool_after_task task rest p pool w =
      let p' = after_task task p w in
      update_process_stats p'.id (store_process p' (take_process rest pool))

  pub serve_request_returns :
      (fuel : ℕ) (task : TaskPayload) (pool : ProcessPool) (w : World) (id : String)
      (rest : List String) (p : Process)
      → pop_idle pool.idle_processes ≡ some (id, rest)
      → Dict.get pool.processes id ≡ some p
      → let (result, p', w') = execute_task os protocol task p w in
        should_recycle_process (now w') p'.id (pool_after_task task rest p pool w) ≡ false
        → serve_request os protocol (suc fuel) task pool w
          ≡ some
              (result, return_process_to_idle_pool p'.id (pool_after_task task rest p pool w), w')
  unfolding serve_request get_idle_process answer_request settle_process
  serve_request_returns fuel task pool w id rest p popped found fits =
      let got : get_idle_process os protocol (suc fuel) pool w
          ≡ some (reply p, take_process rest pool, w) =
        rw (popped, get_idle_process, found) refl in
      rw (got, serve_request, fits) refl
