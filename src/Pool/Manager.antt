-- ===== src/Pool/Manager.antt =====
-- The methods of `ProcessPool` in internal/pool/python/pool.go. Each takes the pool and the outside
-- world and gives them back. The map holds the processes themselves: a process that the worker has
-- taken is written back to it, if the pool still has it. `fuel` bounds the retries of
-- `getIdleProcess`; `none` says that it ran out. Here one goroutine works on the pool at a time, with
-- the whole code; Pool/Goroutines has them interleaved.
pub mod Steps
pub mod Bounds
pub mod Settings
pub mod Idle
pub mod Counters
pub mod Recycling
pub mod Round
pub mod Shutdown
mod Examples
pub mod State
use celery_to_go.Prelude.{
  ℕ, zero, suc, ◌+◌, String, Bool, true, false, ◌&&◌, ◌||◌, Option, none, some, List, [], ◌∷◌, ◌++◌,
  length, ltb, ◌==◌, if◌then◌else◌,
}
use celery_to_go.Prelude.Int.{ℤ, pos, pos_part, ◌+ℤ◌, ◌-ℤ◌, ltb_ℤ, leb_ℤ}
use celery_to_go.Prelude.Dict
use celery_to_go.Prelude.Dict.{Dict}
use celery_to_go.Prelude.Errors.{Error, new, wrap, Result, ok, panic, Reply, reply, failed}
use celery_to_go.Protocol.Payload.{TaskPayload, ResultPayload, Protocol}
use celery_to_go.Pool.Types.{
  ProcessState, idle, busy, starting, stopping, stopped, error, ProcessStats, PoolConfig, PoolStats,
}
use celery_to_go.Pool.Process.State.{Process, ProcessConfig, Os}
use celery_to_go.Pool.Process.{new_python_process, start, stop, execute_task}
use celery_to_go.Pool.Config.{ProcessPool}
use celery_to_go.Pool.Manager.State.{
  max_processes_reached, count_start, count_no_start, count_started, count_taken, count_returned,
  count_stopping, count_stopped, remove_first, pop_idle, return_process_to_idle_pool,
  update_process_stats, is_idle, is_error, passed, is_worn_out, should_recycle_process,
  store_process, process_config, add_process, take_process, begin_recycle, end_recycle,
}

module _ (os : Os) (protocol : Protocol) where
  open os use {World, now}

  start_process : Process → ProcessPool → World → Option Error × ProcessPool × World
  start_process p pool w =
      let (e, p', w') = start os p w in
      elim e [
        | some e' ↦ (
          some (wrap "failed to start Python process" e'),
          record pool { stats = count_no_start pool.stats },
          w',
        )
        | none ↦ (none, add_process p' pool, w')
      ]

  pub create_process : ProcessPool → World → Option Error × ProcessPool × World
  unfolding start_process
  create_process pool w =
      if leb_ℤ pool.config.max_processes (pos (Dict.size pool.processes))
      then (some max_processes_reached, pool, w)
      else let pool' = record pool { stats = count_start pool.stats } in
        let (r, w') = new_python_process os (process_config pool.config) w in
        elim r [
          | failed e ↦ (
            some (wrap "failed to create Python process" e),
            record pool' { stats = count_no_start pool'.stats },
            w',
          )
          | reply p ↦ start_process p pool' w'
        ]

  pub get_idle_process : ℕ → ProcessPool → World → Option (Reply Process × ProcessPool × World)
  get_idle_process zero pool w = none
  get_idle_process (suc fuel) pool w = elim (pop_idle pool.idle_processes) [
    | some (id, rest) ↦ elim (Dict.get pool.processes id) [
      | some p ↦ some (reply p, take_process rest pool, w)
      | none ↦ get_idle_process fuel (record pool { idle_processes = rest }) w
    ]
    | none ↦ elim (create_process pool w).0 [
      | some e ↦ some (
        failed (wrap "failed to create new process" e),
        (create_process pool w).1,
        (create_process pool w).2,
      )
      | none ↦ get_idle_process fuel (create_process pool w).1 (create_process pool w).2
    ]
  ]

  create_processes : ℕ → ProcessPool → World → ProcessPool × World
  create_processes zero pool w = (pool, w)
  create_processes (suc n) pool w =
      let (_, pool', w') = create_process pool w in create_processes n pool' w'

  -- The bound of the loop is read once, before it.
  pub ensure_min_processes : ProcessPool → World → ProcessPool × World
  ensure_min_processes pool w =
      create_processes (pos_part (pool.config.min_processes -ℤ pos (Dict.size pool.processes))) pool
        w

  stop_process : Process → World → World
  stop_process p w =
      let (e, p', w') = stop os protocol true p w in
      elim e [ none ↦ w' | some _ ↦ (stop os protocol false p' w').2 ]

  pub recycle_process : String → ProcessPool → World → ProcessPool × World
  unfolding stop_process
  recycle_process id pool w = elim (Dict.get pool.processes id) [
    | none ↦ (pool, w)
    | some p ↦ ensure_min_processes (end_recycle id (begin_recycle p id pool)) (stop_process p w)
  ]

  pub settle_process : String → ProcessPool → World → ProcessPool × World
  settle_process id pool w =
      let recycled = recycle_process id pool w in
      if should_recycle_process (now w) id pool
      then recycled
      else (return_process_to_idle_pool id pool, w)

  answer_request :
      TaskPayload → Reply Process → ProcessPool → World → Reply ResultPayload × ProcessPool × World
  unfolding store_process
  answer_request task (failed e) pool w = (failed (wrap "failed to get idle process" e), pool, w)
  answer_request task (reply p) pool w =
      let (result, p', w') = execute_task os protocol task p w in
      let (pool', w'') =
        settle_process p'.id (update_process_stats p'.id (store_process p' pool)) w' in
      (result, pool', w'')

  -- One round of `worker`: a request comes in, and its result goes out.
  pub serve_request :
      ℕ → TaskPayload → ProcessPool → World → Option (Reply ResultPayload × ProcessPool × World)
  serve_request fuel task pool w = elim (get_idle_process fuel pool w) [
    | none ↦ none
    | some (taken, pool', w') ↦ some (answer_request task taken pool' w')
  ]

  check_process : String → ProcessPool → World → ProcessPool × World
  check_process id pool w =
      let recycled = recycle_process id pool w in
      if should_recycle_process (now w) id pool then recycled else (pool, w)

  check_processes : List String → ProcessPool → World → ProcessPool × World
  check_processes [] pool w = (pool, w)
  check_processes (id ∷ ids) pool w =
      let (pool', w') = check_process id pool w in check_processes ids pool' w'

  -- `order` is the order in which `range` visits the processes.
  pub check_and_recycle_processes : List String → ProcessPool → World → ProcessPool × World
  unfolding check_process check_processes
  check_and_recycle_processes order pool w =
      let (pool', w') = check_processes order pool w in ensure_min_processes pool' w'

  stop_processes : List String → ProcessPool → World → ProcessPool × World
  stop_processes [] pool w = (pool, w)
  stop_processes (id ∷ ids) pool w = elim (Dict.get pool.processes id) [
    | none ↦ stop_processes ids pool w
    | some p ↦
        let (e, p', w') = stop os protocol true p w in
        stop_processes ids (record pool { processes = Dict.put pool.processes id p' }) w'
  ]

  -- `close` panics on a channel that is closed. `Stop` waits for the goroutines, which changes
  -- nothing, and keeps the stopped processes in the map.
  pub stop_pool : List String → ProcessPool → World → Result (ProcessPool × World)
  unfolding stop_processes
  stop_pool order pool w =
      if pool.is_shut_down
      then panic
      else ok (stop_processes order (record pool { is_shut_down = true }) w)

  start_processes : ℕ → ProcessPool → World → Option Error × ProcessPool × World
  start_processes zero pool w = (none, pool, w)
  start_processes (suc n) pool w =
      let (e, pool', w') = create_process pool w in
      elim e [
        | some e' ↦ (some (wrap "failed to create initial process" e'), pool', w')
        | none ↦ start_processes n pool' w'
      ]

  pub start_pool : ProcessPool → World → Option Error × ProcessPool × World
  unfolding start_processes
  start_pool pool w = start_processes (pos_part pool.config.min_processes) pool w
