-- ===== src/Pool/Goroutines/Recycled.antt =====
-- `recycleProcess` of internal/pool/python/pool.go in two goroutines at a time, for one process.
use celery_to_go.Prelude.{
  ℕ, String, ◌≡◌, refl, sym, ap, ◌∙◌, true, false, some, List, ◌∷◌, ◌++◌, ◌==◌, inl, inr,
  Option-cases,
}
use celery_to_go.Prelude.Int.{pos, ◌-ℤ◌}
use celery_to_go.Prelude.Dict
use celery_to_go.Prelude.Dict.{get-put, get-delete}
use celery_to_go.Pool.Types.{ProcessState, PoolStats}
use celery_to_go.Pool.Process.State.{Process}
use celery_to_go.Pool.Config.{ProcessPool}
use celery_to_go.Pool.Manager.State.{should_recycle_process, store_process, count_stopping}
use celery_to_go.Pool.Goroutines.{
  Pc, Caller, deciding, removing, ensuring, checking, check, serve, Shared, worn, check_worn,
  recycle, remove, sign_off, stop, delete, count_stop, System, Run, none_yet,
}
use celery_to_go.Pool.Goroutines.Races.{Moves, stay, again, Moves-Run, append_assoc}

store_process-stats : (p : Process) (pool : ProcessPool) → (store_process p pool).stats ≡ pool.stats
unfolding store_process
store_process-stats p pool = elim (Option-cases (Dict.get pool.processes p.id)) [
  | inl gone ↦ rw (gone, store_process) refl
  | inr (old, found) ↦ rw (found, store_process) refl
]

store_process-other :
    (p : Process) (pool : ProcessPool) (j : String)
    → (p.id == j) ≡ false
    → Dict.get (store_process p pool).processes j ≡ Dict.get pool.processes j
unfolding store_process
store_process-other p pool j other = elim (Option-cases (Dict.get pool.processes p.id)) [
  | inl gone ↦ rw (gone, store_process) refl
  | inr (old, found) ↦ rw (found, store_process, get-put, other) refl
]

count_stopping-total :
    (state : ProcessState) (stats : PoolStats)
    → (count_stopping state stats).total_processes ≡ stats.total_processes
unfolding count_stopping
count_stopping-total ProcessState.idle stats = refl
count_stopping-total _ stats = refl

-- What a goroutine does to the pool that takes a process away.
record TakesAway (id : String) (s s' : Shared) : Type 0 where
  one_less : s'.pool.stats.total_processes ≡ s.pool.stats.total_processes -ℤ pos 1
  others_stay :
      (j : String) → (id == j) ≡ false → Dict.get s'.pool.processes j ≡ Dict.get s.pool.processes j

module _ (uuids : ℕ → String) where
  -- The rest of `recycleProcess`, from where it has found the process.
  recycle_rest :
      (s : Shared) (id : String) (p : Process) (c : Caller)
      → p.id ≡ id
      → (s' : Shared) × Moves uuids (removing id p c) s (ensuring c) s' × TakesAway id s s'
  recycle_rest s id p c own = (
    _,
    again (remove id p c) (
        again (sign_off id p c p.stats.state)
          (again (stop id p c own) (again (delete id c) (again (count_stop id c) stay)))),
    record {
      one_less = rw (store_process-stats, count_stopping-total) refl;
      others_stay =
          λ j other. get-delete _ id j ∙ rw other (store_process-other p _ j (rw own other));
    },
  )

-- When a worker is to decide on a process after a task, while the monitor comes to the same process,
-- and the recorded statistics call for recycling, then both can recycle it: the count of the processes
-- goes down by two, though every process but that one is still in the pool. For any pool that has
-- the process, and any other goroutines.
pub double_recycle :
    (uuids : ℕ → String) (s : System uuids) (id : String) (p : Process) (ids : List String)
    (now : ℕ) (before middle after : List Pc)
    → s.goroutines ≡ before ++ deciding id ∷ (middle ++ checking (id ∷ ids) ∷ after)
    → Dict.get s.shared.pool.processes id ≡ some p
    → p.id ≡ id
    → should_recycle_process now id s.shared.pool ≡ true
    → (t : System uuids) × Run uuids s t
      × (t.shared.pool.stats.total_processes
          ≡ s.shared.pool.stats.total_processes -ℤ pos 1 -ℤ pos 1)
      × ((j : String)
          → (id == j) ≡ false
          → Dict.get t.shared.pool.processes j ≡ Dict.get s.shared.pool.processes j)
double_recycle uuids s id p ids now before middle after here found own call_for =
    let r = s.shared in
    let c = check ids in
    let (r₁, by_worker, first_gone) = recycle_rest uuids r id p serve own in
    let (r₂, by_monitor, second_gone) = recycle_rest uuids r₁ id p c own in
    let worker_in =
      Moves-Run uuids (again (worn id now call_for) (again (recycle id p serve found) stay)) before
        (middle ++ checking (id ∷ ids) ∷ after) s.goroutines here none_yet in
    let both_in =
      Moves-Run uuids (again (check_worn id ids now call_for) (again (recycle id p c found) stay))
        (before ++ removing id p serve ∷ middle) after _
        (sym (append_assoc before middle after (removing id p serve) (checking (id ∷ ids))))
        worker_in in
    let worker_out =
      Moves-Run uuids by_worker before (middle ++ removing id p c ∷ after) _
        (append_assoc before middle after (removing id p serve) (removing id p c)) both_in in
    let monitor_out =
      Moves-Run uuids by_monitor (before ++ ensuring serve ∷ middle) after _
        (sym (append_assoc before middle after (ensuring serve) (removing id p c))) worker_out in
    (
      _,
      monitor_out,
      second_gone.one_less ∙ ap (λ n. n -ℤ pos 1) first_gone.one_less,
      λ j other. second_gone.others_stay j other ∙ first_gone.others_stay j other,
    )
