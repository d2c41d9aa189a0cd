-- ===== src/Pool/Process/Execution.antt =====
-- What `ExecuteTask` gives back, and the state in which it leaves the process.
use celery_to_go.Prelude.{
  ℕ, String, ◌≡◌, refl, ap, subst, ◌∙◌, Option, none, some, List, [], ◌∷◌, In, arith, eq_iff, ◌==◌,
  Bool-cases, Option-cases, inl, inr,
}
use celery_to_go.Prelude.Int.{ℤ, pos, ◌+ℤ◌}
use celery_to_go.Prelude.Errors.{Error, Reply, reply, failed, Reply-cases}
use celery_to_go.Protocol.Payload.{TaskPayload, ResultPayload, Protocol}
use celery_to_go.Pool.Types.{idle, busy, error}
use celery_to_go.Pool.Process.State.{
  Process, Os, find_result, outcome, finish_task, End, eof, still_open, Outcome, answered,
  unreadable, timed_out,
}
use celery_to_go.Pool.Process.{await_task, execute_task, stamp, newline}
use celery_to_go.Pool.Process.State

-- A result that is found answers the task, and one of the lines decodes to it.
pub find_result_sound :
    (protocol : Protocol) (id : String) (lines : List (List ℕ)) (r : ResultPayload)
    → find_result protocol id lines ≡ some r
    → (r.task_id ≡ id) × ((line : List ℕ) × In line lines × (protocol.decode_result line ≡ reply r))
unfolding find_result
find_result_sound protocol id [] r e = cc
find_result_sound protocol id (line ∷ lines) r e =
    elim (Reply-cases (protocol.decode_result line)) [
      | inr (x, bad) ↦
          let (own, (at, found, decodes)) =
            find_result_sound protocol id lines r (rw (bad, find_result) at e) in
          (own, (at, inr found, decodes))
      | inl (r', good) ↦ elim (Bool-cases (r'.task_id == id)) [
        | inl own ↦
            let same : r' ≡ r = ground (arith, rw (good, find_result, own) at e) in
            (
              subst (λ x. x.task_id ≡ id) same ((eq_iff r'.task_id id).0 own),
              (line, inl refl, good ∙ ap reply same),
            )
        | inr other ↦
            let (own, (at, found, decodes)) =
              find_result_sound protocol id lines r (rw (good, find_result, other) at e) in
            (own, (at, inr found, decodes))
      ]
    ]

-- How the call ends: with a result of the task, and the process idle with one task more; with an
-- error, and the process in the error state; or with an error before the task was sent, and the
-- process busy with it.
pub data Executed (task : TaskPayload) (count : ℤ) (p' : Process)
    : Reply ResultPayload → Type 0 where
  done :
      (r : ResultPayload)
      → r.task_id ≡ task.task_id
      → p'.state ≡ idle
      → p'.stats.current_task_id ≡ ""
      → p'.stats.tasks_processed ≡ count +ℤ pos 1
      → Executed task count p' (reply r)
  broken :
      (e : Error)
      → p'.state ≡ error
      → p'.stats.current_task_id ≡ ""
      → p'.stats.tasks_processed ≡ count
      → Executed task count p' (failed e)
  unsent :
      (e : Error)
      → p'.state ≡ busy
      → p'.stats.current_task_id ≡ task.task_id
      → p'.stats.tasks_processed ≡ count
      → Executed task count p' (failed e)

finish_task-Executed :
    (now : ℕ) (task : TaskPayload) (found : Option ResultPayload) (end : End) (p : Process)
    → ((r : ResultPayload) → found ≡ some r → r.task_id ≡ task.task_id)
    → let r = finish_task now (outcome found end) p in Executed task p.stats.tasks_processed r.1 r.0
unfolding finish_task outcome
finish_task-Executed now task (some r) end p own = done r (own r refl) refl refl refl
finish_task-Executed now task none (State.broken e) p own = broken _ refl refl refl
finish_task-Executed now task none eof p own = broken _ refl refl refl
finish_task-Executed now task none still_open p own = broken _ refl refl refl

module _ (os : Os) (protocol : Protocol) where
  open os use {World, now, write_stdin}

  await_task-Executed :
      (task : TaskPayload) (p : Process) (w : World)
      → let r = await_task os protocol task p w in Executed task p.stats.tasks_processed r.1 r.0
  unfolding await_task
  await_task-Executed task p w =
      finish_task-Executed _ task _ _ p (λ r e. (find_result_sound protocol task.task_id _ r e).0)

  -- Every call of `ExecuteTask` ends in one of three ways: with a result that carries the
  -- identifier of the task, the process idle, with no current task and one task more to its count;
  -- with an error, the process in the error state with no current task and the same count; or with
  -- an error, the process still busy with the task and the same count.
  pub execute_task-Executed :
      (task : TaskPayload) (p : Process) (w : World)
      → let r = execute_task os protocol task p w in Executed task p.stats.tasks_processed r.1 r.0
  unfolding execute_task
  execute_task-Executed task p w = elim (Reply-cases (protocol.encode_task (stamp os w).0 task)) [
    | inr (e, no_line) ↦ rw (no_line, execute_task) (unsent _ refl refl refl)
    | inl (line, encoded) ↦
        elim (Option-cases (write_stdin p.id (newline os line) (stamp os w).1).0) [
          | inr (e, no_write) ↦ rw (encoded, execute_task, no_write) (unsent _ refl refl refl)
          | inl written ↦
              rw (encoded, execute_task, written)
                (await_task-Executed task
                  (record p {
                    state = busy;
                    stats = record p.stats {
                      state = busy;
                      current_task_id = task.task_id;
                      current_task_start_time = now w;
                    };
                  })
                  (write_stdin p.id (newline os line) (stamp os w).1).1)
        ]
  ]

finish_task-id : (now : ℕ) (o : Outcome) (p : Process) → (finish_task now o p).1.id ≡ p.id
unfolding finish_task
finish_task-id now (answered r) p = refl
finish_task-id now (unreadable e) p = refl
finish_task-id now timed_out p = refl

await_task-id :
    (os : Os) (protocol : Protocol) (task : TaskPayload) (p : Process) (w : os.World)
    → (await_task os protocol task p w).1.id ≡ p.id
unfolding await_task
await_task-id os protocol task p w = finish_task-id _ _ p

-- A process keeps its identifier.
pub execute_task-id :
    (os : Os) (protocol : Protocol) (task : TaskPayload) (p : Process) (w : os.World)
    → (execute_task os protocol task p w).1.id ≡ p.id
unfolding execute_task
execute_task-id os protocol task p w =
    elim (Reply-cases (protocol.encode_task (stamp os w).0 task)) [
      | inr (e, no_line) ↦ rw (no_line, execute_task) refl
      | inl (line, encoded) ↦
          elim (Option-cases (os.write_stdin p.id (newline os line) (stamp os w).1).0) [
            | inr (e, no_write) ↦ rw (encoded, execute_task, no_write) refl
            | inl written ↦ rw (encoded, execute_task, written) (await_task-id os protocol task _ _)
          ]
    ]
