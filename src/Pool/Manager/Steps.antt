-- ===== src/Pool/Manager/Steps.antt =====
-- The elementary transitions of the pool, and the rule for what all of them keep.
use celery_to_go.Prelude.{
  ℕ, zero, suc, String, ◌≡◌, refl, ap, subst, inl, inr, false, Option, none, some, List, [], ◌∷◌,
  arith, Bool-cases, Option-cases,
}
use celery_to_go.Prelude.Int.{ℤ, pos, ◌<ℤ◌, ◌+ℤ◌, ◌-ℤ◌, leb_ℤ, int_laws}
use celery_to_go.Prelude.Dict
use celery_to_go.Prelude.Errors.{Error, Reply, reply, failed}
use celery_to_go.Protocol.Payload.{TaskPayload, ResultPayload, Protocol}
use celery_to_go.Pool.Process.State.{Process, Os}
use celery_to_go.Pool.Process.{new_python_process, start}
use celery_to_go.Pool.Config.{ProcessPool}
use celery_to_go.Pool.Manager.State.{
  count_start, count_no_start, add_process, take_process, begin_recycle, end_recycle,
  process_config, store_process, update_process_stats, return_process_to_idle_pool,
  should_recycle_process, pop_idle,
}
use celery_to_go.Pool.Manager.{
  start_pool, start_processes, create_process, start_process, get_idle_process, create_processes,
  ensure_min_processes, recycle_process, settle_process, serve_request, answer_request,
  check_process, check_processes, check_and_recycle_processes,
}

abbrev pub starting_one : ProcessPool → ProcessPool
starting_one pool = record pool { stats = count_start pool.stats }

-- `createProcess` leaves the pool as it was, or adds a process where there is room for one.
pub data Created (pool pool' : ProcessPool) : Option Error → Type 0 where
  refused : (e : Error) → pool' ≡ pool → Created pool pool' (some e)
  added :
      (p : Process)
      → pos (Dict.size pool.processes) <ℤ pool.config.max_processes
      → pool' ≡ add_process p (starting_one pool)
      → Created pool pool' none

add_sub_one : (n : ℤ) → n +ℤ pos 1 -ℤ pos 1 ≡ n
add_sub_one n = omega int_laws

undo_start :
    (pool : ProcessPool) → record pool { stats = count_no_start (count_start pool.stats) } ≡ pool
undo_start pool =
    ap (λ n. record pool { stats = record pool.stats { starting_processes = n } })
      (add_sub_one pool.stats.starting_processes)

module _ (os : Os) (protocol : Protocol) where
  open os use {World}

  start_process-Created :
      (p : Process) (pool : ProcessPool) (w : World)
      → pos (Dict.size pool.processes) <ℤ pool.config.max_processes
      → let r = start_process os protocol p (starting_one pool) w in Created pool r.1 r.0
  unfolding start_process
  start_process-Created p pool w room = elim (Option-cases (start os p w).0) [
    | inl e ↦ rw (e, start_process) (added (start os p w).1 room refl)
    | inr (x, e) ↦ rw (e, start_process) (refused _ (undo_start pool))
  ]

  made_process-Created :
      (r : Reply Process) (pool : ProcessPool) (w : World)
      → pos (Dict.size pool.processes) <ℤ pool.config.max_processes
      → (new_python_process os (process_config pool.config) w).0 ≡ r
      → leb_ℤ pool.config.max_processes (pos (Dict.size pool.processes)) ≡ false
      → let c = create_process os protocol pool w in Created pool c.1 c.0
  unfolding create_process
  made_process-Created (failed e) pool w room made open_ =
      rw (open_, create_process, made) (refused _ (undo_start pool))
  made_process-Created (reply p) pool w room made open_ =
      rw (open_, create_process, made) (start_process-Created p pool _ room)

  pub create_process-Created :
      (pool : ProcessPool) (w : World)
      → let r = create_process os protocol pool w in Created pool r.1 r.0
  unfolding create_process
  create_process-Created pool w =
      elim (Bool-cases (leb_ℤ pool.config.max_processes (pos (Dict.size pool.processes)))) [
        | inl full ↦ rw (full, create_process) (refused _ refl)
        | inr room ↦
            made_process-Created (new_python_process os (process_config pool.config) w).0 pool w
              (ground arith) refl room
      ]

-- What an invariant of the pool has to survive.
pub record Survives (P : ProcessPool → Type 0) : Type 0 where
  pub add :
      (pool : ProcessPool) (p : Process)
      → pos (Dict.size pool.processes) <ℤ pool.config.max_processes
      → P pool
      → P (add_process p (starting_one pool))
  pub skip :
      (pool : ProcessPool) (ids : List String) → P pool → P (record pool { idle_processes = ids })
  pub take : (pool : ProcessPool) (ids : List String) → P pool → P (take_process ids pool)
  pub store : (pool : ProcessPool) (p : Process) → P pool → P (store_process p pool)
  pub update : (pool : ProcessPool) (id : String) → P pool → P (update_process_stats id pool)
  pub recycle :
      (pool : ProcessPool) (p : Process) (id : String)
      → P pool
      → P (end_recycle id (begin_recycle p id pool))
  pub return : (pool : ProcessPool) (id : String) → P pool → P (return_process_to_idle_pool id pool)

module _ (os : Os) (protocol : Protocol) {P : ProcessPool → Type 0} (s : Survives P) where
  open os use {World, now}

  Created-keeps :
      {pool pool' : ProcessPool} {e : Option Error} → Created pool pool' e → P pool → P pool'
  Created-keeps (refused e same) h = rw same h
  Created-keeps {pool} (added p room made) h = rw made (s.add pool p room h)

  create_process_keeps :
      (pool : ProcessPool) (w : World) → P pool → P (create_process os protocol pool w).1
  create_process_keeps pool w h = Created-keeps (create_process-Created os protocol pool w) h

  create_processes_keeps :
      (n : ℕ) (pool : ProcessPool) (w : World)
      → P pool
      → P (create_processes os protocol n pool w).0
  unfolding create_processes
  create_processes_keeps zero pool w h = h
  create_processes_keeps (suc n) pool w h =
      create_processes_keeps n _ _ (create_process_keeps pool w h)

  ensure_min_processes_keeps :
      (pool : ProcessPool) (w : World) → P pool → P (ensure_min_processes os protocol pool w).0
  unfolding ensure_min_processes
  ensure_min_processes_keeps pool w h = create_processes_keeps _ pool w h

  pub recycle_process_keeps :
      (id : String) (pool : ProcessPool) (w : World)
      → P pool
      → P (recycle_process os protocol id pool w).0
  unfolding recycle_process
  recycle_process_keeps id pool w h = elim (Option-cases (Dict.get pool.processes id)) [
    | inl gone ↦ rw (gone, recycle_process) h
    | inr (p, found) ↦
        rw (found, recycle_process) (ensure_min_processes_keeps _ _ (s.recycle pool p id h))
  ]

  settle_process_keeps :
      (id : String) (pool : ProcessPool) (w : World)
      → P pool
      → P (settle_process os protocol id pool w).0
  unfolding settle_process
  settle_process_keeps id pool w h = elim (Bool-cases (should_recycle_process (now w) id pool)) [
    | inl worn ↦ rw worn (recycle_process_keeps id pool w h)
    | inr fit ↦ rw fit (s.return pool id h)
  ]

  pub get_idle_process_keeps :
      (fuel : ℕ) (pool pool' : ProcessPool) (w w' : World) (r : Reply Process)
      → get_idle_process os protocol fuel pool w ≡ some (r, pool', w')
      → P pool
      → P pool'
  unfolding get_idle_process
  get_idle_process_keeps zero pool pool' w w' r e h = cc
  get_idle_process_keeps (suc fuel) pool pool' w w' r e h =
      elim (Option-cases (pop_idle pool.idle_processes)) [
        | inl empty ↦ elim (Option-cases (create_process os protocol pool w).0) [
          | inl created ↦
              get_idle_process_keeps fuel (create_process os protocol pool w).1 pool'
                (create_process os protocol pool w).2 w' r
                (rw (empty, get_idle_process, created) at e) (create_process_keeps pool w h)
          | inr (x, no_process) ↦
              subst P (ground (arith, rw (empty, get_idle_process, no_process) at e))
                (create_process_keeps pool w h)
        ]
        | inr ((id, rest), popped) ↦ elim (Option-cases (Dict.get pool.processes id)) [
          | inl gone ↦
              get_idle_process_keeps fuel (record pool { idle_processes = rest }) pool' w w' r
                (rw (popped, get_idle_process, gone) at e) (s.skip pool rest h)
          | inr (p, found) ↦
              subst P (ground (arith, rw (popped, get_idle_process, found) at e))
                (s.take pool rest h)
        ]
      ]

  check_process_keeps :
      (id : String) (pool : ProcessPool) (w : World)
      → P pool
      → P (check_process os protocol id pool w).0
  unfolding check_process
  check_process_keeps id pool w h = elim (Bool-cases (should_recycle_process (now w) id pool)) [
    | inl worn ↦ rw worn (recycle_process_keeps id pool w h)
    | inr fit ↦ rw fit h
  ]

  check_processes_keeps :
      (ids : List String) (pool : ProcessPool) (w : World)
      → P pool
      → P (check_processes os protocol ids pool w).0
  unfolding check_processes
  check_processes_keeps [] pool w h = h
  check_processes_keeps (id ∷ ids) pool w h =
      check_processes_keeps ids _ _ (check_process_keeps id pool w h)

  pub check_and_recycle_processes_keeps :
      (ids : List String) (pool : ProcessPool) (w : World)
      → P pool
      → P (check_and_recycle_processes os protocol ids pool w).0
  unfolding check_and_recycle_processes
  check_and_recycle_processes_keeps ids pool w h =
      ensure_min_processes_keeps _ _ (check_processes_keeps ids pool w h)

  answer_request_keeps :
      (task : TaskPayload) (taken : Reply Process) (pool : ProcessPool) (w : World)
      → P pool
      → P (answer_request os protocol task taken pool w).1
  unfolding answer_request
  answer_request_keeps task (failed e) pool w h = h
  answer_request_keeps task (reply p) pool w h =
      settle_process_keeps _ _ _ (s.update _ _ (s.store pool _ h))

  pub serve_request_keeps :
      (fuel : ℕ) (task : TaskPayload) (pool pool' : ProcessPool) (w w' : World)
      (r : Reply ResultPayload)
      → serve_request os protocol fuel task pool w ≡ some (r, pool', w')
      → P pool
      → P pool'
  unfolding serve_request
  serve_request_keeps fuel task pool pool' w w' r e h =
      elim (Option-cases (get_idle_process os protocol fuel pool w)) [
        | inl out ↦ cc (rw (out, serve_request) at e)
        | inr ((taken, pool₁, w₁), got) ↦ subst P (ground (arith, rw (got, serve_request) at e)) (
            answer_request_keeps task taken pool₁ w₁
              (get_idle_process_keeps fuel pool pool₁ w w₁ taken got h))
      ]

  start_processes_keeps :
      (n : ℕ) (pool : ProcessPool) (w : World) → P pool → P (start_processes os protocol n pool w).1
  unfolding start_processes
  start_processes_keeps zero pool w h = h
  start_processes_keeps (suc n) pool w h =
      elim (Option-cases (create_process os protocol pool w).0) [
        | inl made ↦
            rw (made, start_processes) (start_processes_keeps n _ _ (create_process_keeps pool w h))
        | inr (e, refused_one) ↦ rw (refused_one, start_processes) (create_process_keeps pool w h)
      ]

  pub start_pool_keeps :
      (pool : ProcessPool) (w : World) → P pool → P (start_pool os protocol pool w).1
  unfolding start_pool
  start_pool_keeps pool w h = start_processes_keeps _ pool w h
