-- ===== src/Pool/Manager/Shutdown.antt =====
-- `Stop` of the pool.
use celery_to_go.Prelude.{
  some, none, All, subst, sym, ◌⊎◌, ◌==◌, eq_refl, String, true, ◌≡◌, refl, ap, ◌∙◌, List, [], ◌∷◌,
  arith, Bool-cases, Option-cases, inl, inr,
}
use celery_to_go.Prelude.Dict
use celery_to_go.Prelude.Dict.{get-put}
use celery_to_go.Pool.Types.{stopped}
use celery_to_go.Pool.Process.{stop}
use celery_to_go.Pool.Process.State.{Process}
use celery_to_go.Prelude.Errors.{ok, panic}
use celery_to_go.Protocol.Payload.{Protocol}
use celery_to_go.Pool.Process.State.{Os}
use celery_to_go.Pool.Config.{ProcessPool}
use celery_to_go.Pool.Manager.{stop_pool, stop_processes}

-- The pool has no such process, or a stopped one.
abbrev pub IsStopped : Dict.Dict Process → String → Type 0
IsStopped processes id =
    (Dict.get processes id ≡ none)
    ⊎ ((p : Process) × (Dict.get processes id ≡ some p) × (p.state ≡ stopped))

module _ (os : Os) (protocol : Protocol) where
  open os use {World}

  stop_processes-is_shut_down :
      (order : List String) (pool : ProcessPool) (w : World)
      → (stop_processes os protocol order pool w).0.is_shut_down ≡ pool.is_shut_down
  unfolding stop_processes
  stop_processes-is_shut_down [] pool w = refl
  stop_processes-is_shut_down (id ∷ order) pool w =
      elim (Option-cases (Dict.get pool.processes id)) [
        | inl gone ↦ rw (gone, stop_processes) (stop_processes-is_shut_down order pool w)
        | inr (p, found) ↦ rw (found, stop_processes) (stop_processes-is_shut_down order _ _)
      ]

  -- A second `Stop` of the pool, in the state in which the first one has left it, panics,
  -- whatever the state of the outside world is then.
  pub stop_pool_twice :
      (order order' : List String) (pool pool' : ProcessPool) (w w' w'' : World)
      → stop_pool os protocol order pool w ≡ ok (pool', w')
      → stop_pool os protocol order' pool' w'' ≡ panic
  unfolding stop_pool
  stop_pool_twice order order' pool pool' w w' w'' e = elim (Bool-cases pool.is_shut_down) [
    | inl shut ↦ ground arith
    | inr open_still ↦
        let stopped : pool'
            ≡ (stop_processes os protocol order (record pool { is_shut_down = true }) w).0 =
          ground arith in
        let shut : pool'.is_shut_down ≡ true =
          ap (λ q. q.is_shut_down) stopped
          ∙ (stop_processes-is_shut_down order (record pool { is_shut_down = true }) w) in
        rw (shut) refl
  ]

  put-IsStopped :
      (pool : ProcessPool) (j id : String) (p : Process)
      → p.state ≡ stopped
      → IsStopped pool.processes id
      → IsStopped (Dict.put pool.processes j p) id
  put-IsStopped pool j id p at_rest h = elim (Bool-cases (j == id)) [
    | inl same ↦ inr (p, rw (get-put, same) refl, at_rest)
    | inr other ↦ rw (get-put, other) h
  ]

  stop_state : (p : Process) (w : World) → (stop os protocol true p w).1.state ≡ stopped
  unfolding stop
  stop_state p w = refl

  stop_processes_keeps :
      (order : List String) (pool : ProcessPool) (w : World) (id : String)
      → IsStopped pool.processes id
      → IsStopped (stop_processes os protocol order pool w).0.processes id
  unfolding stop_processes
  stop_processes_keeps [] pool w id h = h
  stop_processes_keeps (j ∷ order) pool w id h = elim (Option-cases (Dict.get pool.processes j)) [
    | inl gone ↦ rw (gone, stop_processes) (stop_processes_keeps order pool w id h)
    | inr (p, found) ↦
        rw (found, stop_processes)
          (stop_processes_keeps order _ _ id
            (put-IsStopped pool j id (stop os protocol true p w).1 (stop_state p w) h))
  ]

  stop_processes-IsStopped :
      (order : List String) (pool : ProcessPool) (w : World)
      → All (IsStopped (stop_processes os protocol order pool w).0.processes) order
  unfolding stop_processes
  stop_processes-IsStopped [] pool w = tt
  stop_processes-IsStopped (id ∷ order) pool w = elim (Option-cases (Dict.get pool.processes id)) [
    | inl gone ↦
        let step : stop_processes os protocol (id ∷ order) pool w
            ≡ stop_processes os protocol order pool w =
          rw (gone, stop_processes) in
        subst (λ r. All (IsStopped r.0.processes) (id ∷ order)) (sym step)
          (stop_processes_keeps order pool w id (inl gone), stop_processes-IsStopped order pool w)
    | inr (p, found) ↦
        let p' = (stop os protocol true p w).1 in
        let w' = (stop os protocol true p w).2 in
        let pool' = record pool { processes = Dict.put pool.processes id p' } in
        let step : stop_processes os protocol (id ∷ order) pool w
            ≡ stop_processes os protocol order pool' w' =
          rw (found, stop_processes) in
        subst (λ r. All (IsStopped r.0.processes) (id ∷ order)) (sym step)
          (
            stop_processes_keeps order pool' w' id
                (inr (p', rw (get-put, eq_refl) refl, stop_state p w)),
            stop_processes-IsStopped order pool' w',
          )
  ]

  -- When `Stop` returns, every process that it has visited is in the stopped state, if the pool has it.
  pub stop_pool-IsStopped :
      (order : List String) (pool pool' : ProcessPool) (w w' : World)
      → stop_pool os protocol order pool w ≡ ok (pool', w')
      → All (IsStopped pool'.processes) order
  unfolding stop_pool
  stop_pool-IsStopped order pool pool' w w' e =
      let same : stop_processes os protocol order (record pool { is_shut_down = true }) w
          ≡ (pool', w') =
        ground arith in
      subst (λ r. All (IsStopped r.0.processes) order) same
        (stop_processes-IsStopped order (record pool { is_shut_down = true }) w)
