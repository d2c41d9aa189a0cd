-- ===== src/Pool/Goroutines/Races.antt =====
-- Orders of the goroutines of the pool in internal/pool/python/pool.go: two creations between the
-- check of `createProcess` and its insertion, and the monitor beside a worker.
use celery_to_go.Prelude.{
  ℕ, suc, String, ◌+◌, ◌≡◌, ◌≢◌, refl, sym, subst, ◌∙◌, true, false, List, [], ◌∷◌, ◌++◌, none,
  some, arith, eq_iff,
}
use celery_to_go.Prelude.Int.{pos, leb_ℤ, ◌<ℤ◌}
use celery_to_go.Prelude.Dict
use celery_to_go.Prelude.Dict.{size-put, get-put}
use celery_to_go.Pool.Process.State.{Process}
use celery_to_go.Pool.Manager.State.{should_recycle_process, count_start}
use celery_to_go.Pool.Goroutines.{
  Pc, Creator, creating, signing_on, counting, holding, checking, check, stopping, Shared, Move,
  room, sign_on, start, insert, check_worn, recycle, remove, sign_off, System, move, Run, none_yet,
  then, with_processes, with_stats,
}

-- Several moves of one goroutine.
pub data Moves (uuids : ℕ → String) : Pc → Shared → Pc → Shared → Type 0 where
  stay : {pc : Pc} {s : Shared} → Moves uuids pc s pc s
  again :
      {pc : Pc} {s : Shared} {pc' : Pc} {s' : Shared} {pc'' : Pc} {s'' : Shared}
      → Move uuids pc s pc' s'
      → Moves uuids pc' s' pc'' s''
      → Moves uuids pc s pc'' s''

pub append_assoc :
    (before middle after : List Pc) (pc pc' : Pc)
    → (before ++ pc ∷ middle) ++ pc' ∷ after ≡ before ++ pc ∷ (middle ++ pc' ∷ after)
append_assoc [] middle after pc pc' = refl
append_assoc (x ∷ before) middle after pc pc' = rw (append_assoc before middle after pc pc') refl

module _ (uuids : ℕ → String) where
  pub Moves-Run :
      {s : System uuids} {pc : Pc} {r : Shared} {pc' : Pc} {r' : Shared}
      → Moves uuids pc r pc' r'
      → (before after : List Pc) (pcs : List Pc) → pcs ≡ before ++ pc ∷ after
      → Run uuids s (record { shared = r; goroutines = pcs })
      → Run uuids s (record { shared = r'; goroutines = before ++ pc' ∷ after })
  Moves-Run {s = s} {r = r} stay before after pcs e run =
      subst (λ gs. Run uuids s (record { shared = r; goroutines = gs })) e run
  Moves-Run (again m ms) before after pcs e run =
      Moves-Run ms before after _ refl (then run (move before after e m))

  -- From the check of `createProcess` on, with room or without.
  pub creation :
      (s : Shared) (k : Creator) (p : Process)
      → p.id ≡ uuids s.drawn
      → Moves uuids (signing_on k) s (counting p k) (
          with_processes
            (Dict.put s.pool.processes p.id p)
            (record (with_stats (count_start s.pool.stats) s) { drawn = suc s.drawn }))
  creation s k p drawn = again (sign_on k) (again (start k p drawn) (again (insert p k) stay))

-- Two goroutines that come to the check of `createProcess` while the pool has one process fewer than
-- its maximum can both pass it, and the pool then has one process more than its maximum: for any
-- pool, any two goroutines among any others, and any two new processes.
pub creators_exceed_max :
    (uuids : ℕ → String) (s : System uuids) (k l : Creator) (p q : Process)
    (before middle after : List Pc)
    → s.goroutines ≡ before ++ creating k ∷ (middle ++ creating l ∷ after)
    → s.shared.pool.config.max_processes ≡ pos (Dict.size s.shared.pool.processes + 1)
    → p.id ≡ uuids s.shared.drawn
    → q.id ≡ uuids (suc s.shared.drawn)
    → p.id ≢ q.id
    → Dict.get s.shared.pool.processes p.id ≡ none
    → Dict.get s.shared.pool.processes q.id ≡ none
    → (t : System uuids) × Run uuids s t
      × (t.shared.pool.config.max_processes <ℤ pos (Dict.size t.shared.pool.processes))
creators_exceed_max uuids s k l p q before middle after here max p_drawn q_drawn distinct p_new
      q_new =
    let r = s.shared in
    let free : leb_ℤ r.pool.config.max_processes (pos (Dict.size r.pool.processes)) ≡ false =
      rw max (ground arith) in
    let first =
      Moves-Run uuids (again (room k free) stay) before (middle ++ creating l ∷ after) s.goroutines
        here none_yet in
    let second =
      Moves-Run uuids (again (room l free) (creation uuids r l p p_drawn))
        (before ++ signing_on k ∷ middle) after _
        (sym (append_assoc before middle after (signing_on k) (creating l))) first in
    let r' =
      with_processes (Dict.put r.pool.processes p.id p)
        (record (with_stats (count_start r.pool.stats) r) { drawn = suc r.drawn }) in
    let third =
      Moves-Run uuids (creation uuids r' k q q_drawn) before (middle ++ counting p l ∷ after) _
        (append_assoc before middle after (signing_on k) (counting p l)) second in
    let q_still_new : Dict.get r'.pool.processes q.id ≡ none =
      ground (arith, get-put r.pool.processes p.id q.id p, eq_iff p.id q.id) in
    (_, third, ground (arith, size-put r.pool.processes p.id p, size-put r'.pool.processes q.id q))

-- While a worker executes a task on a process that the pool has, the monitor can come to stop that
-- process: it is enough that the recorded statistics of the process call for recycling. For any
-- pool and any other goroutines.
pub monitor_stops_busy :
    (uuids : ℕ → String) (s : System uuids) (id : String) (p : Process) (ids : List String)
    (now : ℕ) (before middle after : List Pc)
    → s.goroutines ≡ before ++ holding id ∷ (middle ++ checking (id ∷ ids) ∷ after)
    → Dict.get s.shared.pool.processes id ≡ some p
    → should_recycle_process now id s.shared.pool ≡ true
    → (t : System uuids) × Run uuids s t
      × (t.goroutines ≡ before ++ holding id ∷ (middle ++ stopping id (check ids) ∷ after))
monitor_stops_busy uuids s id p ids now before middle after here found worn =
    let recycling_it = again (check_worn id ids now worn) (
      again (recycle id p (check ids) found)
        (again (remove id p (check ids)) (again (sign_off id p (check ids) p.stats.state) stay))) in
    (
      _,
      Moves-Run uuids recycling_it (before ++ holding id ∷ middle) after _
          (here ∙ sym (append_assoc before middle after (holding id) (checking (id ∷ ids))))
          none_yet,
      append_assoc before middle after (holding id) (stopping id (check ids)),
    )
