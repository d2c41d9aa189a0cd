-- ===== src/Pool/Manager/State.antt =====
-- The changes of the state of `ProcessPool` in internal/pool/python/pool.go that no process takes part in.
use celery_to_go.Prelude.{
  ℕ, String, Bool, true, false, ◌&&◌, Option, none, some, List, [], ◌∷◌, ◌++◌, ◌==◌, if◌then◌else◌,
}
use celery_to_go.Prelude.Int.{ℤ, pos, ◌+ℤ◌, ◌-ℤ◌, ltb_ℤ, leb_ℤ}
use celery_to_go.Prelude.Dict
use celery_to_go.Prelude.Dict.{Dict}
use celery_to_go.Prelude.Errors.{Error, new}
use celery_to_go.Pool.Types.{ProcessState, idle, busy, error, ProcessStats, PoolConfig, PoolStats}
use celery_to_go.Pool.Process.State.{Process, ProcessConfig}
use celery_to_go.Pool.Config.{ProcessPool}

-- The number in the text of the error is left out.
abbrev pub max_processes_reached : Error
max_processes_reached = new "maximum number of processes reached"

abbrev pub count_start : PoolStats → PoolStats
count_start s = record s { starting_processes = s.starting_processes +ℤ pos 1 }

abbrev pub count_no_start : PoolStats → PoolStats
count_no_start s = record s { starting_processes = s.starting_processes -ℤ pos 1 }

abbrev pub count_started : Process → PoolStats → PoolStats
count_started p s = record s {
  total_processes = s.total_processes +ℤ pos 1;
  idle_processes = s.idle_processes +ℤ pos 1;
  starting_processes = s.starting_processes -ℤ pos 1;
  process_stats = Dict.put s.process_stats p.id p.stats;
}

abbrev pub count_taken : PoolStats → PoolStats
count_taken s = record s {
  idle_processes = s.idle_processes -ℤ pos 1;
  busy_processes = s.busy_processes +ℤ pos 1;
}

abbrev pub count_returned : PoolStats → PoolStats
count_returned s = record s {
  idle_processes = s.idle_processes +ℤ pos 1;
  busy_processes = s.busy_processes -ℤ pos 1;
}

unfoldable pub count_stopping : ProcessState → PoolStats → PoolStats
count_stopping idle s = record s {
  stopping_processes = s.stopping_processes +ℤ pos 1;
  idle_processes = s.idle_processes -ℤ pos 1;
}
count_stopping busy s = record s {
  stopping_processes = s.stopping_processes +ℤ pos 1;
  busy_processes = s.busy_processes -ℤ pos 1;
}
count_stopping _ s = record s { stopping_processes = s.stopping_processes +ℤ pos 1 }

abbrev pub count_stopped : String → PoolStats → PoolStats
count_stopped id s = record s {
  total_processes = s.total_processes -ℤ pos 1;
  stopping_processes = s.stopping_processes -ℤ pos 1;
  process_stats = Dict.delete s.process_stats id;
}

unfoldable pub remove_first : String → List String → List String
remove_first id [] = []
remove_first id (j ∷ ids) = let rest = remove_first id ids in if j == id then ids else j ∷ rest

-- The first of the idle processes, and the others.
unfoldable pub pop_idle : List String → Option (String × List String)
pop_idle [] = none
pop_idle (id ∷ ids) = some (id, ids)

unfoldable pub return_process_to_idle_pool : String → ProcessPool → ProcessPool
return_process_to_idle_pool id pool = record pool {
  idle_processes = pool.idle_processes ++ id ∷ [];
  stats = count_returned pool.stats;
}

unfoldable pub update_process_stats : String → ProcessPool → ProcessPool
update_process_stats id pool = elim (Dict.get pool.processes id) [
  | none ↦ pool
  | some p ↦ record pool {
    stats = record pool.stats { process_stats = Dict.put pool.stats.process_stats id p.stats };
  }
]

unfoldable pub is_idle : ProcessState → Bool
is_idle idle = true
is_idle _ = false

unfoldable pub is_error : ProcessState → Bool
is_error error = true
is_error _ = false

-- `t.Add(d).Before(now)`
abbrev pub passed : ℕ → ℤ → ℕ → Bool
passed t d now = ltb_ℤ (pos t +ℤ d) (pos now)

-- The four tests of `shouldRecycleProcess`, on the recorded statistics.
unfoldable pub is_worn_out : PoolConfig → ℕ → ProcessStats → Bool
unfolding is_idle is_error
is_worn_out config now s =
    if ltb_ℤ (pos 0) config.max_tasks_per_process
      && leb_ℤ config.max_tasks_per_process s.tasks_processed
    then true
    else if ltb_ℤ (pos 0) config.max_idle_time
        && (is_idle s.state && passed s.last_task_time config.max_idle_time now)
    then true
    else if ltb_ℤ (pos 0) config.max_process_age && passed s.start_time config.max_process_age now
    then true
    else is_error s.state

unfoldable pub should_recycle_process : ℕ → String → ProcessPool → Bool
should_recycle_process now id pool = elim (Dict.get pool.stats.process_stats id) [
  | none ↦ false
  | some s ↦ is_worn_out pool.config now s
]

-- The process as its owner left it, seen through the map.
unfoldable pub store_process : Process → ProcessPool → ProcessPool
store_process p pool = elim (Dict.get pool.processes p.id) [
  | none ↦ pool
  | some _ ↦ record pool { processes = Dict.put pool.processes p.id p }
]

abbrev pub process_config : PoolConfig → ProcessConfig
process_config config = record {
  python_path = config.python_path;
  worker_script_path = config.worker_script_path;
  env = config.process_env;
  task_timeout = config.task_execution_timeout;
}

-- The process has started and joins the pool.
unfoldable pub add_process : Process → ProcessPool → ProcessPool
add_process p pool = record pool {
  processes = Dict.put pool.processes p.id p;
  stats = count_started p pool.stats;
  idle_processes = pool.idle_processes ++ p.id ∷ [];
}

unfoldable pub take_process : List String → ProcessPool → ProcessPool
take_process rest pool = record pool { idle_processes = rest; stats = count_taken pool.stats }

-- `recycleProcess` up to the stop of the process, and after it.
unfoldable pub begin_recycle : Process → String → ProcessPool → ProcessPool
begin_recycle p id pool = record pool {
  idle_processes = remove_first id pool.idle_processes;
  stats = count_stopping p.stats.state pool.stats;
}

unfoldable pub end_recycle : String → ProcessPool → ProcessPool
end_recycle id pool = record pool {
  processes = Dict.delete pool.processes id;
  stats = count_stopped id pool.stats;
}
