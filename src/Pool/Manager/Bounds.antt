-- ===== src/Pool/Manager/Bounds.antt =====
-- The number of processes and the maximum, with one goroutine at work on the pool.
use celery_to_go.Prelude.{ℕ, ◌+◌, ◌≤◌, String, ◌≡◌, some, List, arith, Option-cases, inl, inr}
use celery_to_go.Prelude.Int.{pos, ◌≤ℤ◌}
use celery_to_go.Prelude.Dict
use celery_to_go.Prelude.Dict.{size-put, size-delete}
use celery_to_go.Prelude.Errors.{Reply}
use celery_to_go.Protocol.Payload.{TaskPayload, ResultPayload, Protocol}
use celery_to_go.Pool.Process.State.{Process, Os}
use celery_to_go.Pool.Types.{PoolConfig}
use celery_to_go.Pool.Config.{ProcessPool, new_process_pool}
use celery_to_go.Pool.Config.Defaults.{new_process_pool-IsConfigured}
use celery_to_go.Pool.Manager.State.{
  add_process, take_process, begin_recycle, end_recycle, store_process, update_process_stats,
  return_process_to_idle_pool,
}
use celery_to_go.Pool.Manager.{start_pool, serve_request, check_and_recycle_processes}
use celery_to_go.Pool.Manager.Steps.{
  Survives, serve_request_keeps, check_and_recycle_processes_keeps, start_pool_keeps,
}

abbrev pub IsBounded : ProcessPool → Type 0
IsBounded pool = pos (Dict.size pool.processes) ≤ℤ pool.config.max_processes

size-put-le :
    {V : Type 0} (d : Dict.Dict V) (k : String) (v : V)
    → Dict.size (Dict.put d k v) ≤ Dict.size d + 1
size-put-le d k v = ground (arith, size-put d k v)

IsBounded-survives : Survives IsBounded
IsBounded-survives = record {
  add = λ pool p room h. unfold add_process in omega (arith, size-put-le pool.processes p.id p);
  skip = λ pool ids h. h;
  take = λ pool ids h. unfold take_process in h;
  store = λ pool p h. stored pool p h;
  update = λ pool id h. updated pool id h;
  recycle = λ pool p id h.
      unfold end_recycle begin_recycle in omega (arith, size-delete pool.processes id);
  return = λ pool id h. unfold return_process_to_idle_pool in h;
}
  where
    stored : (pool : ProcessPool) (p : Process) → IsBounded pool → IsBounded (store_process p pool)
    stored pool p h = elim (Option-cases (Dict.get pool.processes p.id)) [
      | inl gone ↦ unfold store_process in rw (gone, store_process) h
      | inr (old, found) ↦
          unfold store_process in
          rw (found, store_process) (ground (arith, size-put pool.processes p.id p))
    ]

    updated :
        (pool : ProcessPool) (id : String)
        → IsBounded pool
        → IsBounded (update_process_stats id pool)
    updated pool id h = elim (Option-cases (Dict.get pool.processes id)) [
      | inl gone ↦ unfold update_process_stats in rw (gone, update_process_stats) h
      | inr (old, found) ↦ unfold update_process_stats in rw (found, update_process_stats) h
    ]

-- In a pool whose number of processes is within the maximum, and on which no other goroutine works
-- meanwhile, a request that comes to its end, served or refused, leaves it so, whatever the processes,
-- the operating system and the clock do. With other goroutines at work this does not hold.
pub serve_request-IsBounded :
    (os : Os) (protocol : Protocol) (fuel : ℕ) (task : TaskPayload) (pool pool' : ProcessPool)
    (w w' : os.World) (r : Reply ResultPayload)
    → serve_request os protocol fuel task pool w ≡ some (r, pool', w')
    → IsBounded pool
    → IsBounded pool'
serve_request-IsBounded os protocol fuel task pool pool' w w' r =
    serve_request_keeps os protocol IsBounded-survives fuel task pool pool' w w' r

-- In a pool whose number of processes is within the maximum, a round of the monitor leaves it so,
-- whatever the processes, the operating system and the clock do.
pub check_and_recycle_processes-IsBounded :
    (os : Os) (protocol : Protocol) (order : List String) (pool : ProcessPool) (w : os.World)
    → IsBounded pool
    → IsBounded (check_and_recycle_processes os protocol order pool w).0
check_and_recycle_processes-IsBounded os protocol =
    check_and_recycle_processes_keeps os protocol IsBounded-survives

new_process_pool-IsBounded : (config : PoolConfig) → IsBounded (new_process_pool config)
new_process_pool-IsBounded config =
    let configured = (new_process_pool-IsConfigured config).0 in
    unfold new_process_pool Dict.size Dict.empty in
    omega (arith, configured.min_processes, configured.max_processes)

-- A pool that is made from any configuration and started has no more processes than its maximum,
-- whether the start succeeds or not, and whatever the processes, the operating system and the clock
-- do.
pub started_pool-IsBounded :
    (os : Os) (protocol : Protocol) (config : PoolConfig) (w : os.World)
    → IsBounded (start_pool os protocol (new_process_pool config) w).1
started_pool-IsBounded os protocol config w =
    start_pool_keeps os protocol IsBounded-survives (new_process_pool config) w
      (new_process_pool-IsBounded config)
