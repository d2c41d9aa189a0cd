-- ===== src/Pool/Goroutines.antt =====
-- The goroutines of `ProcessPool` in internal/pool/python/pool.go, interleaved in any order: one for
-- each worker of the pool, and the one that runs `Start`, which becomes the monitor. A goroutine is
-- at a critical section of its code, and a move runs one section: what one mutex guards is changed
-- at once, and between two sections any other goroutine may move. What the operating system
-- decides, the new process and what a task or a signal leaves of a process, is any value; and what
-- a goroutine copies of a process is what its owner has made of it by then, so it is any value too.
-- `Stop` closes the channel that ends the goroutines; what it does to the processes after that is
-- left out.
pub mod Totals
pub mod Size
pub mod Counters
pub mod Ownership
pub mod Races
pub mod Alone
pub mod Recycled
mod Examples
use celery_to_go.Prelude.{
  ℕ, zero, suc, String, ◌≡◌, Bool, true, false, Option, none, some, List, [], ◌∷◌, ◌++◌,
}
use celery_to_go.Prelude.Int.{pos, pos_part, ◌-ℤ◌, leb_ℤ}
use celery_to_go.Prelude.Dict
use celery_to_go.Pool.Types.{PoolConfig, PoolStats, ProcessStats, ProcessState}
use celery_to_go.Pool.Process.State.{Process}
use celery_to_go.Pool.Config.{ProcessPool, new_process_pool}
use celery_to_go.Pool.Manager.State.{
  count_start, count_no_start, count_started, count_taken, count_returned, count_stopping,
  count_stopped, remove_first, pop_idle, should_recycle_process, store_process,
}

-- What `recycleProcess` and `ensureMinProcesses` return to: the loop of `worker`, the loop of
-- `checkAndRecycleProcesses` over the processes it has left, or its end.
pub data Caller : Type 0 where
  serve : Caller
  check : List String → Caller
  rest : Caller

-- What `createProcess` returns to: `getIdleProcess`, or a loop with so many rounds left.
pub data Creator : Type 0 where
  retry : Creator
  ensure : ℕ → Caller → Creator
  initial : ℕ → Creator

-- Where a goroutine is.
pub data Pc : Type 0 where
  -- `worker`
  waiting : Pc
  holding : String → Pc
  updating : String → Pc
  recording : String → Process → Pc
  deciding : String → Pc
  -- `getIdleProcess`
  getting : Pc
  looking : String → Pc
  taking : String → Pc
  -- `returnProcessToIdlePool`
  returning : String → Pc
  returned : Pc
  -- `recycleProcess`
  recycling : String → Caller → Pc
  removing : String → Process → Caller → Pc
  signing_off : String → Process → Caller → Pc
  stopping : String → Caller → Pc
  deleting : String → Caller → Pc
  signed_off : String → Caller → Pc
  -- `ensureMinProcesses`
  ensuring : Caller → Pc
  looping : ℕ → Caller → Pc
  resuming : Caller → Pc
  -- `createProcess`
  creating : Creator → Pc
  signing_on : Creator → Pc
  starting : Creator → Pc
  failing : Creator → Pc
  inserting : Process → Creator → Pc
  counting : Process → Creator → Pc
  offering : Process → Creator → Pc
  created : Creator → Pc
  refused : Creator → Pc
  -- `Start`, `monitor` and `checkAndRecycleProcesses`
  launching : ℕ → Pc
  resting : Pc
  checking : List String → Pc
  finished : Pc

-- Moves that look at nothing that is shared.
pub data Jump : Pc → Pc → Type 0 where
  receive : Jump waiting getting
  loop_done : (c : Caller) → Jump (looping zero c) (resuming c)
  loop_again : (n : ℕ) (c : Caller) → Jump (looping (suc n) c) (creating (ensure n c))
  make_fails : (k : Creator) → Jump (starting k) (failing k)
  created_retry : Jump (created retry) getting
  created_ensure : (n : ℕ) (c : Caller) → Jump (created (ensure n c)) (looping n c)
  created_initial : (n : ℕ) → Jump (created (initial n)) (launching n)
  refused_retry : Jump (refused retry) waiting
  refused_ensure : (n : ℕ) (c : Caller) → Jump (refused (ensure n c)) (looping n c)
  refused_initial : (n : ℕ) → Jump (refused (initial n)) finished
  resume_serve : Jump (resuming serve) waiting
  resume_check : (ids : List String) → Jump (resuming (check ids)) (checking ids)
  resume_rest : Jump (resuming rest) resting
  launch_again : (n : ℕ) → Jump (launching (suc n)) (creating (initial n))
  launched : Jump (launching zero) resting
  -- The snapshot of the processes, in any order: another goroutine may change the map after it.
  tick : (ids : List String) → Jump resting (checking ids)
  checked : Jump (checking []) (ensuring rest)

-- The pool, and how many identifiers have been drawn.
pub record Shared : Type 0 where
  pub pool : ProcessPool
  pub drawn : ℕ

abbrev pub with_stats : PoolStats → Shared → Shared
with_stats stats s = record s { pool = record s.pool { stats = stats } }

abbrev pub with_idle : List String → Shared → Shared
with_idle ids s = record s { pool = record s.pool { idle_processes = ids } }

abbrev pub with_processes : Dict.Dict Process → Shared → Shared
with_processes processes s = record s { pool = record s.pool { processes = processes } }

-- The identifiers that `uuid.New` hands out, one after the other.
module _ (uuids : ℕ → String) where
  pub data Move : Pc → Shared → Pc → Shared → Type 0 where
    jump : {pc pc' : Pc} {s : Shared} → Jump pc pc' → Move pc s pc' s
    -- `getIdleProcess`
    pop :
        {s : Shared} (id : String) (ids : List String)
        → pop_idle s.pool.idle_processes ≡ some (id, ids)
        → Move getting s (looking id) (with_idle ids s)
    no_idle : {s : Shared} → s.pool.idle_processes ≡ [] → Move getting s (creating retry) s
    found :
        {s : Shared} (id : String) (p : Process)
        → Dict.get s.pool.processes id ≡ some p
        → Move (looking id) s (taking id) s
    gone :
        {s : Shared} (id : String)
        → Dict.get s.pool.processes id ≡ none
        → Move (looking id) s getting s
    take :
        {s : Shared} (id : String)
        → Move (taking id) s (holding id) (with_stats (count_taken s.pool.stats) s)
    -- `worker`
    execute :
        {s : Shared} (id : String) (p : Process)
        → p.id ≡ id
        → Move (holding id) s (updating id) (record s { pool = store_process p s.pool })
    update :
        {s : Shared} (id : String) (p : Process)
        → Dict.get s.pool.processes id ≡ some p
        → Move (updating id) s (recording id p) s
    update_gone :
        {s : Shared} (id : String)
        → Dict.get s.pool.processes id ≡ none
        → Move (updating id) s (deciding id) s
    record_stats :
        {s : Shared} (id : String) (p : Process) (stats : ProcessStats)
        → Move (recording id p) s (deciding id) (
            with_stats
              (record s.pool.stats { process_stats = Dict.put s.pool.stats.process_stats id stats })
              s)
    worn :
        {s : Shared} (id : String) (now : ℕ)
        → should_recycle_process now id s.pool ≡ true
        → Move (deciding id) s (recycling id serve) s
    fit :
        {s : Shared} (id : String) (now : ℕ)
        → should_recycle_process now id s.pool ≡ false
        → Move (deciding id) s (returning id) s
    give_back :
        {s : Shared} (id : String)
        → Move (returning id) s returned (with_idle (s.pool.idle_processes ++ id ∷ []) s)
    count_return :
        {s : Shared} → Move returned s waiting (with_stats (count_returned s.pool.stats) s)
    -- `recycleProcess`
    recycle :
        {s : Shared} (id : String) (p : Process) (c : Caller)
        → Dict.get s.pool.processes id ≡ some p
        → Move (recycling id c) s (removing id p c) s
    recycle_gone :
        {s : Shared} (id : String) (c : Caller)
        → Dict.get s.pool.processes id ≡ none
        → Move (recycling id c) s (resuming c) s
    remove :
        {s : Shared} (id : String) (p : Process) (c : Caller)
        → Move
            (removing id p c)
            s
            (signing_off id p c)
            (with_idle (remove_first id s.pool.idle_processes) s)
    sign_off :
        {s : Shared} (id : String) (p : Process) (c : Caller) (state : ProcessState)
        → Move
            (signing_off id p c)
            s
            (stopping id c)
            (with_stats (count_stopping state s.pool.stats) s)
    stop :
        {s : Shared} (id : String) (p : Process) (c : Caller)
        → p.id ≡ id
        → Move (stopping id c) s (deleting id c) (record s { pool = store_process p s.pool })
    delete :
        {s : Shared} (id : String) (c : Caller)
        → Move
            (deleting id c)
            s
            (signed_off id c)
            (with_processes (Dict.delete s.pool.processes id) s)
    count_stop :
        {s : Shared} (id : String) (c : Caller)
        → Move (signed_off id c) s (ensuring c) (with_stats (count_stopped id s.pool.stats) s)
    -- `ensureMinProcesses`
    measure :
        {s : Shared} (c : Caller)
        → Move
            (ensuring c)
            s
            (looping (pos_part (s.pool.config.min_processes -ℤ pos (Dict.size s.pool.processes))) c)
            s
    -- `createProcess`
    full :
        {s : Shared} (k : Creator)
        → leb_ℤ s.pool.config.max_processes (pos (Dict.size s.pool.processes)) ≡ true
        → Move (creating k) s (refused k) s
    room :
        {s : Shared} (k : Creator)
        → leb_ℤ s.pool.config.max_processes (pos (Dict.size s.pool.processes)) ≡ false
        → Move (creating k) s (signing_on k) s
    sign_on :
        {s : Shared} (k : Creator)
        → Move (signing_on k) s (starting k) (with_stats (count_start s.pool.stats) s)
    start_fails :
        {s : Shared} (k : Creator)
        → Move (starting k) s (failing k) (record s { drawn = suc s.drawn })
    start :
        {s : Shared} (k : Creator) (p : Process)
        → p.id ≡ uuids s.drawn
        → Move (starting k) s (inserting p k) (record s { drawn = suc s.drawn })
    count_failure :
        {s : Shared} (k : Creator)
        → Move (failing k) s (refused k) (with_stats (count_no_start s.pool.stats) s)
    insert :
        {s : Shared} (p : Process) (k : Creator)
        → Move
            (inserting p k)
            s
            (counting p k)
            (with_processes (Dict.put s.pool.processes p.id p) s)
    count :
        {s : Shared} (p q : Process) (k : Creator)
        → q.id ≡ p.id
        → Move (counting p k) s (offering p k) (with_stats (count_started q s.pool.stats) s)
    offer :
        {s : Shared} (p : Process) (k : Creator)
        → Move (offering p k) s (created k) (with_idle (s.pool.idle_processes ++ p.id ∷ []) s)
    -- `worker` and `monitor` once `shutdown` is closed
    quit : {s : Shared} → s.pool.is_shut_down ≡ true → Move waiting s finished s
    quit_monitor : {s : Shared} → s.pool.is_shut_down ≡ true → Move resting s finished s
    -- `checkAndRecycleProcesses`
    check_worn :
        {s : Shared} (id : String) (ids : List String) (now : ℕ)
        → should_recycle_process now id s.pool ≡ true
        → Move (checking (id ∷ ids)) s (recycling id (check ids)) s
    check_fit :
        {s : Shared} (id : String) (ids : List String) (now : ℕ)
        → should_recycle_process now id s.pool ≡ false
        → Move (checking (id ∷ ids)) s (checking ids) s

  pub record System : Type 0 where
    pub shared : Shared
    pub goroutines : List Pc

  -- One goroutine moves, or the pool is told to stop.
  pub data Step (s : System) : System → Type 0 where
    move :
        {s' : Shared} {pc pc' : Pc} (before after : List Pc)
        → s.goroutines ≡ before ++ pc ∷ after
        → Move pc s.shared pc' s'
        → Step s (record { shared = s'; goroutines = before ++ pc' ∷ after })
    -- `Stop` closes the channel, once.
    close :
        s.shared.pool.is_shut_down ≡ false
        → Step s (record s {
          shared = record s.shared { pool = record s.shared.pool { is_shut_down = true } };
        })

  pub data Run (s : System) : System → Type 0 where
    none_yet : Run s s
    then : {t u : System} → Run s t → Step t u → Run s u

unfoldable pub workers : ℕ → List Pc
workers zero = []
workers (suc n) = waiting ∷ workers n

-- `Start` on a new pool, with its workers running and no process yet.
abbrev pub launch : (uuids : ℕ → String) → PoolConfig → System uuids
launch uuids config =
    let pool = new_process_pool config in
    record {
      shared = record { pool = pool; drawn = 0 };
      goroutines =
          launching (pos_part pool.config.min_processes)
          ∷ workers (pos_part pool.config.max_processes);
    }
