-- ===== src/Pool/Manager/Idle.antt =====
-- How `getIdleProcess` and a request end.
use celery_to_go.Prelude.{
  ℕ, zero, suc, ◌+◌, ◌≤◌, String, ◌≡◌, refl, ◌∙◌, some, none, List, [], ◌∷◌, length, arith, Option,
  Option-cases, inl, inr, subst, eq_refl, ap,
}
use celery_to_go.Prelude.Int.{ℤ, pos, ◌+ℤ◌}
use celery_to_go.Prelude.Dict
use celery_to_go.Prelude.Dict.{get-put}
use celery_to_go.Prelude.Errors.{Error, wrap, Reply, reply, failed}
use celery_to_go.Protocol.Payload.{TaskPayload, ResultPayload, Protocol}
use celery_to_go.Pool.Process.State.{Process, Os}
use celery_to_go.Pool.Config.{ProcessPool}
use celery_to_go.Pool.Manager.State.{add_process, take_process, pop_idle}
use celery_to_go.Pool.Manager.{get_idle_process, create_process, serve_request, answer_request}
use celery_to_go.Pool.Manager.Steps.{Created, refused, added, create_process-Created}

-- A process of the pool is handed out and counted as busy, where `busy` were counted before; or none
-- is idle and none could be made.
pub data Got (busy : ℤ) (pool : ProcessPool) : Reply Process → Type 0 where
  taken :
      (id : String) (p : Process)
      → Dict.get pool.processes id ≡ some p
      → pool.stats.busy_processes ≡ busy +ℤ pos 1
      → Got busy pool (reply p)
  empty :
      (e : Error)
      → pool.idle_processes ≡ []
      → pool.stats.busy_processes ≡ busy
      → Got busy pool (failed e)

pop_idle-cases :
    (ids : List String)
    → (pop_idle ids ≡ none → ids ≡ [])
      × ((id : String) (rest : List String) → pop_idle ids ≡ some (id, rest) → ids ≡ id ∷ rest)
unfolding pop_idle
pop_idle-cases [] = (λ _. refl, λ id rest e. cc)
pop_idle-cases (id ∷ ids) = (λ e. cc, λ j rest e. ground arith)

Created-busy :
    (pool pool' : ProcessPool) (e : Option Error)
    → Created pool pool' e
    → pool'.stats.busy_processes ≡ pool.stats.busy_processes
unfolding add_process
Created-busy pool pool' e (refused x same) = ap (λ (p : ProcessPool). p.stats.busy_processes) same
Created-busy pool pool' e (added p room made) =
    ap (λ (p : ProcessPool). p.stats.busy_processes) made

Created-first :
    (pool pool' : ProcessPool) (e : Option Error)
    → Created pool pool' e
    → e ≡ none
    → pool.idle_processes ≡ []
    → (p : Process) × (pool'.idle_processes ≡ p.id ∷ []) × (Dict.get pool'.processes p.id ≡ some p)
unfolding add_process
Created-first pool pool' e (refused x same) none_failed first = cc
Created-first pool pool' e (added p room made) none_failed first =
    (p, rw (made, first), rw (made, get-put, eq_refl))

Created-refused :
    (pool pool' : ProcessPool) (e : Option Error) (x : Error)
    → Created pool pool' e
    → e ≡ some x
    → pool' ≡ pool
Created-refused pool pool' e x (refused y same) e' = same
Created-refused pool pool' e x (added p room made) e' = cc

module _ (os : Os) (protocol : Protocol) where
  open os use {World}

  abbrev pub Ends : Option (Reply Process × ProcessPool × World) → ℤ → Type 0
  Ends o busy =
      (r : Reply Process) × (pool : ProcessPool) × (w : World) × (o ≡ some (r, pool, w))
      × Got busy pool r

  take_first :
      (fuel : ℕ) (pool : ProcessPool) (w : World) (id : String) (p : Process) (rest : List String)
      → pop_idle pool.idle_processes ≡ some (id, rest)
      → Dict.get pool.processes id ≡ some p
      → Ends (get_idle_process os protocol (suc fuel) pool w) pool.stats.busy_processes
  unfolding get_idle_process take_process
  take_first fuel pool w id p rest popped found = (
    reply p,
    take_process rest pool,
    w,
    rw (popped, get_idle_process, found),
    taken id p found refl,
  )

  -- The second round, after a process has been made.
  take_created :
      (fuel : ℕ) (pool pool' : ProcessPool) (w : World)
      → Created pool pool' none
      → pool.idle_processes ≡ []
      → Ends (get_idle_process os protocol (suc fuel) pool' w) pool.stats.busy_processes
  take_created fuel pool pool' w created first =
      let (p, idle, found) = Created-first pool pool' none created refl first in
      subst (Ends (get_idle_process os protocol (suc fuel) pool' w))
        (Created-busy pool pool' none created)
        (take_first fuel pool' w p.id p [] (ap pop_idle idle ∙ (unfold pop_idle in refl)) found)

  retry :
      (fuel : ℕ) (pool : ProcessPool) (w : World)
      → pop_idle pool.idle_processes ≡ none
      → (create_process os protocol pool w).0 ≡ none
      → get_idle_process os protocol (suc fuel) pool w
        ≡ get_idle_process os protocol fuel
            (create_process os protocol pool w).1
            (create_process os protocol pool w).2
  unfolding get_idle_process
  retry fuel pool w none_idle made = rw (none_idle, get_idle_process, made)

  make_first :
      (fuel : ℕ) (pool : ProcessPool) (w : World)
      → pop_idle pool.idle_processes ≡ none
      → Ends (get_idle_process os protocol (suc (suc fuel)) pool w) pool.stats.busy_processes
  unfolding get_idle_process
  make_first fuel pool w none_idle =
      let first = (pop_idle-cases pool.idle_processes).0 none_idle in
      let created = create_process-Created os protocol pool w in
      elim (Option-cases (create_process os protocol pool w).0) [
        | inl made ↦
            let (r, pool', w', e, got) =
              take_created fuel pool (create_process os protocol pool w).1
                (create_process os protocol pool w).2
                (subst (Created pool (create_process os protocol pool w).1) made created) first in
            (r, pool', w', retry (suc fuel) pool w none_idle made ∙ e, got)
        | inr (x, no_process) ↦
            let same = Created-refused pool _ _ x created no_process in
            (
              failed (wrap "failed to create new process" x),
              (create_process os protocol pool w).1,
              (create_process os protocol pool w).2,
              rw (none_idle, get_idle_process, no_process),
              empty _ (ap (λ (p : ProcessPool). p.idle_processes) same ∙ first)
                  (ap (λ (p : ProcessPool). p.stats.busy_processes) same),
            )
      ]

  -- With fuel for the idle list and two rounds more, `getIdleProcess` returns: a process that
  -- the pool has, and one more is counted as busy; or an error, with no process idle and the
  -- busy count as it was.
  pub get_idle_process_total :
      (fuel : ℕ) (pool : ProcessPool) (w : World)
      → length pool.idle_processes + 2 ≤ fuel
      → Ends (get_idle_process os protocol fuel pool w) pool.stats.busy_processes
  unfolding get_idle_process
  get_idle_process_total zero pool w h = absurd (omega arith)
  get_idle_process_total (suc zero) pool w h = absurd (omega arith)
  get_idle_process_total (suc (suc fuel)) pool w h =
      elim (Option-cases (pop_idle pool.idle_processes)) [
        | inl none_idle ↦ make_first fuel pool w none_idle
        | inr ((id, rest), popped) ↦ elim (Option-cases (Dict.get pool.processes id)) [
          | inr (p, found) ↦ take_first (suc fuel) pool w id p rest popped found
          | inl gone ↦
              let shorter = (pop_idle-cases pool.idle_processes).1 id rest popped in
              let (r, pool', w', e, got) =
                get_idle_process_total (suc fuel) (record pool { idle_processes = rest }) w
                  (omega (arith, ap length shorter)) in
              (r, pool', w', rw (popped, get_idle_process, gone) e, got)
        ]
      ]

  -- With fuel for the idle list and two rounds more, every request is answered: with a result or with
  -- an error.
  pub serve_request_total :
      (fuel : ℕ) (task : TaskPayload) (pool : ProcessPool) (w : World)
      → length pool.idle_processes + 2 ≤ fuel
      → (r : Reply ResultPayload) × (pool' : ProcessPool) × (w' : World) × (serve_request os
            protocol fuel task pool w
          ≡ some (r, pool', w'))
  unfolding serve_request
  serve_request_total fuel task pool w h =
      let (process, pool₁, w₁, e, got) = get_idle_process_total fuel pool w h in
      let answer = answer_request os protocol task process pool₁ w₁ in
      (answer.0, answer.1, answer.2, rw (e, serve_request) refl)
