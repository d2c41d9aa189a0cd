-- ===== src/Worker/Tasks/Outcome.antt =====
-- What the record of a task says when its execution is over.
use celery_to_go.Prelude.{
  ℕ, String, ◌≡◌, refl, ◌⊎◌, Bool, true, false, some, inl, inr, ◌==◌, if◌then◌else◌, Bool-cases,
}
use celery_to_go.Prelude.Int.{ℤ, pos, ◌+ℤ◌}
use celery_to_go.Prelude.Dict
use celery_to_go.Prelude.Dict.{get-put}
use celery_to_go.Prelude.Errors.{Reply, reply, failed}
use celery_to_go.Protocol.Payload.{ResultPayload}
use celery_to_go.Worker.Types.{Worker, TaskInfo, success, error}
use celery_to_go.Worker.Tasks.{
  Delivery, finish_task, fail_task, complete_task, task_info, error_text,
}

-- The pool answers, and with a result whose status is "success".
unfoldable pub is_success : Reply ResultPayload → Bool
is_success (failed e) = false
is_success (reply r) = r.status == "success"

-- The text that is recorded as the error of a task that fails.
unfoldable pub error_of : Reply ResultPayload → String
error_of (failed e) = error_text e
error_of (reply r) = r.error

-- The entry of the task in the map, and the counters, after its execution.
pub record Outcome (now : ℕ) (seen : ℤ) (answer : Reply ResultPayload) (d : Delivery)
    (w w' : Worker) : Type 0 where
  pub info : TaskInfo
  pub found :
      (j : String)
      → Dict.get w'.task_infos j
        ≡ (if d.payload.task_id == j then some info else Dict.get w.task_infos j)
  pub completed_at : info.completed_at ≡ now
  pub state : info.state ≡ (if is_success answer then success else error)
  pub recorded : (is_success answer ≡ true) ⊎ (info.error_text ≡ error_of answer)
  pub succeeded :
      w'.stats.tasks_succeeded
      ≡ (if is_success answer then w.stats.tasks_succeeded +ℤ pos 1 else w.stats.tasks_succeeded)
  pub failed_count :
      w'.stats.tasks_failed ≡ (if is_success answer then w.stats.tasks_failed else seen +ℤ pos 1)
  pub received : w'.stats.tasks_received ≡ w.stats.tasks_received
  pub retried : w'.stats.tasks_retried ≡ w.stats.tasks_retried

-- Whatever the pool answers, the task is recorded as completed now; it is recorded as a success, and
-- counted as one, exactly when the pool gives a result with status "success"; otherwise it is
-- recorded as an error, with the text of the error, and the count of failed tasks is set to one more
-- than the count that was read. No other task's record
-- changes, and nothing is counted as received or retried.
pub finish_task-Outcome :
    (now : ℕ) (seen : ℤ) (answer : Reply ResultPayload) (d : Delivery) (w : Worker)
    → Outcome now seen answer d w (finish_task now seen answer d w)
unfolding finish_task fail_task is_success error_of
finish_task-Outcome now seen (failed e) d w = record {
  info = record (task_info w d.payload.task_id) {
    state = error;
    error_text = error_text e;
    completed_at = now;
  };
  found = λ j. get-put w.task_infos d.payload.task_id j _;
  completed_at = refl;
  state = refl;
  recorded = inr refl;
  succeeded = refl;
  failed_count = refl;
  received = refl;
  retried = refl;
}
finish_task-Outcome now seen (reply r) d w = elim (Bool-cases (r.status == "success")) [
  | inl good ↦
      rw (good, complete_task)
        (record {
          info = record (task_info w d.payload.task_id) {
            completed_at = now;
            result = r.result;
            state = success;
          };
          found = λ j. get-put w.task_infos d.payload.task_id j _;
          completed_at = refl;
          state = rw good;
          recorded = inl good;
          succeeded = rw good;
          failed_count = rw good;
          received = refl;
          retried = refl;
        })
  | inr bad ↦
      rw (bad, complete_task)
        (record {
          info = record (task_info w d.payload.task_id) {
            completed_at = now;
            result = r.result;
            state = error;
            error_text = r.error;
            traceback = r.traceback;
          };
          found = λ j. get-put w.task_infos d.payload.task_id j _;
          completed_at = refl;
          state = rw bad;
          recorded = inr refl;
          succeeded = rw bad;
          failed_count = rw bad;
          received = refl;
          retried = refl;
        })
]
