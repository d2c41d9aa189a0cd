-- ===== src/Worker/Tasks/Accounting.antt =====
-- The worker and its goroutines, in any order in which they are scheduled, and the books of the
-- worker.
use celery_to_go.Prelude.{
  ℕ, suc, ◌+◌, ◌≡◌, refl, ap, subst, ◌∙◌, List, [], ◌∷◌, ◌++◌, length, length-append, arith,
  Bool-cases, inl, inr, All, All-middle, All-imply, if◌then◌else◌,
}
use celery_to_go.Prelude.Int.{ℤ, pos, ◌+ℤ◌, ◌-ℤ◌, ◌≤ℤ◌, int_laws, parts_of_eq}
use celery_to_go.Prelude.Errors.{Reply, reply, failed}
use celery_to_go.Protocol.Payload.{TaskPayload, ResultPayload}
use celery_to_go.Broker.Message.{Message}
use celery_to_go.Worker.Types.{Worker, WorkerConfig}
use celery_to_go.Worker.Tasks.{Delivery, new_default_worker, process_tasks, start_task, finish_task}
use celery_to_go.Worker.Tasks.Decoding.{decoded, process_messages_lem}
use celery_to_go.Worker.Tasks.Outcome.{finish_task-Outcome, is_success}

-- The worker, and its goroutines by where they are: not yet begun, waiting for the pool's answer,
-- and about to acknowledge; and the messages whose acknowledgement has succeeded or failed. The last
-- two fields are no state of the program: the counts of failed tasks that there were before the
-- present one, and how many of them were undone by a write of one more than an old count.
pub record System : Type 0 where
  pub worker : Worker
  pub spawned : List Delivery
  pub executing : List Delivery
  pub answered : List Delivery
  pub acknowledged : List Message
  pub unacknowledged : List Message
  pub earlier : List ℤ
  pub lost : ℤ

abbrev pub initial : WorkerConfig → System
initial config = record {
  worker = new_default_worker config;
  spawned = [];
  executing = [];
  answered = [];
  acknowledged = [];
  unacknowledged = [];
  earlier = [];
  lost = pos 0;
}

-- The tasks that the pool has answered.
abbrev pub finished : System → ℕ
finished s = length s.answered + length s.acknowledged + length s.unacknowledged

module _ (decode_task : List ℕ → Reply TaskPayload) where
  abbrev pub after_poll : ℕ → Reply (List Message) → System → System
  after_poll now answer s =
      let r = process_tasks decode_task now answer s.worker in
      record s { worker = r.2; spawned = s.spawned ++ r.1 }

  abbrev pub after_finish :
      ℕ
      → (seen : ℤ) → Reply ResultPayload
      → Delivery
      → (before after : List Delivery) → System
      → System
  after_finish now seen answer d before after s = record s {
    worker = finish_task now seen answer d s.worker;
    executing = before ++ after;
    answered = d ∷ s.answered;
    earlier = s.worker.stats.tasks_failed ∷ s.earlier;
    lost = if is_success answer then s.lost else s.lost +ℤ s.worker.stats.tasks_failed -ℤ seen;
  }

  -- One step: a round of the loop, or the next section of a goroutine.
  pub data Step (s : System) : System → Type 0 where
    poll : (now : ℕ) (answer : Reply (List Message)) → Step s (after_poll now answer s)
    begin :
        (now : ℕ) (d : Delivery) (before after : List Delivery)
        → s.spawned ≡ before ++ d ∷ after
        → Step s (record s {
          worker = start_task now d s.worker;
          spawned = before ++ after;
          executing = d ∷ s.executing;
        })
    -- The count of failed tasks is read at any time before it is written.
    finish :
        (now : ℕ) (seen : ℤ) (answer : Reply ResultPayload) (d : Delivery)
        (before after : List Delivery) (newer older : List ℤ)
        → s.executing ≡ before ++ d ∷ after
        → s.worker.stats.tasks_failed ∷ s.earlier ≡ newer ++ seen ∷ older
        → Step s (after_finish now seen answer d before after s)
    acknowledge :
        (d : Delivery) (before after : List Delivery)
        → s.answered ≡ before ++ d ∷ after
        → Step s
            (record s { answered = before ++ after; acknowledged = d.message ∷ s.acknowledged })
    acknowledge_fails :
        (d : Delivery) (before after : List Delivery)
        → s.answered ≡ before ++ d ∷ after
        → Step s
            (record s { answered = before ++ after; unacknowledged = d.message ∷ s.unacknowledged })

  pub data Reachable (config : WorkerConfig) : System → Type 0 where
    start : Reachable config (initial config)
    step : {s s' : System} → Reachable config s → Step s s' → Reachable config s'

  -- With so many failed tasks, no more are counted than the pool has answered.
  abbrev pub Fits : System → ℤ → Type 0
  Fits s v = s.worker.stats.tasks_succeeded +ℤ v ≤ℤ pos (finished s)

  -- The books of the worker.
  pub record IsBalanced (s : System) : Type 0 where
    pub received :
        s.worker.stats.tasks_received ≡ pos (length s.spawned + length s.executing + finished s)
    pub counted :
        s.worker.stats.tasks_succeeded +ℤ s.worker.stats.tasks_failed +ℤ s.lost ≡ pos (finished s)
    pub fits : All (Fits s) (s.worker.stats.tasks_failed ∷ s.earlier)
    pub retried : s.worker.stats.tasks_retried ≡ pos 0

  pub length-pick :
      (before after : List Delivery) (d : Delivery)
      → length (before ++ d ∷ after) ≡ suc (length (before ++ after))
  length-pick before after d =
      omega (arith, length-append before (d ∷ after), length-append before after)

  poll-IsBalanced :
      (now : ℕ) (answer : Reply (List Message)) (s : System)
      → IsBalanced s
      → IsBalanced (after_poll now answer s)
  unfolding process_tasks
  poll-IsBalanced now (failed e) s b = record {
    received = omega (int_laws, parts_of_eq b.received, length-append s.spawned []);
    counted = b.counted;
    fits = b.fits;
    retried = b.retried;
  }
  poll-IsBalanced now (reply ms) s b =
      let (same, count) = process_messages_lem decode_task now ms s.worker in
      record {
        received =
            rw (count, same)
              (omega (
                int_laws,
                parts_of_eq b.received,
                length-append s.spawned (decoded decode_task ms),
              ));
        counted = rw count b.counted;
        fits = (rw count b.fits.0, All-imply _ (λ v still. rw count still) s.earlier b.fits.1);
        retried = rw count b.retried;
      }

  finish-IsBalanced :
      (now : ℕ) (seen : ℤ) (answer : Reply ResultPayload) (d : Delivery)
      (before after : List Delivery) (s : System)
      → s.executing ≡ before ++ d ∷ after
      → Fits s seen
      → IsBalanced s
      → IsBalanced (after_finish now seen answer d before after s)
  finish-IsBalanced now seen answer d before after s e h b =
      let o = finish_task-Outcome now seen answer d s.worker in
      let picked = ap length e ∙ length-pick before after d in
      let still : (v : ℤ) → Fits s v → Fits (after_finish now seen answer d before after s) v =
        λ v fits. elim (Bool-cases (is_success answer)) [
          | inl good ↦ rw (o.succeeded, good) (omega (int_laws, fits))
          | inr bad ↦ rw (o.succeeded, bad) (omega (int_laws, fits))
        ] in
      elim (Bool-cases (is_success answer)) [
        | inl good ↦ record {
          received = rw o.received (omega (int_laws, picked, parts_of_eq b.received));
          counted =
              rw (o.succeeded, o.failed_count, good) (omega (int_laws, parts_of_eq b.counted));
          fits = (
            rw (o.succeeded, o.failed_count, good) (omega (int_laws, b.fits.0)),
            All-imply _ still (s.worker.stats.tasks_failed ∷ s.earlier) b.fits,
          );
          retried = o.retried ∙ b.retried;
        }
        | inr bad ↦ record {
          received = rw o.received (omega (int_laws, picked, parts_of_eq b.received));
          counted = rw (o.succeeded, o.failed_count, bad) (omega (int_laws, parts_of_eq b.counted));
          fits = (
            rw (o.succeeded, o.failed_count, bad) (omega (int_laws, h)),
            All-imply _ still (s.worker.stats.tasks_failed ∷ s.earlier) b.fits,
          );
          retried = o.retried ∙ b.retried;
        }
      ]

  Step-IsBalanced : {s s' : System} → Step s s' → IsBalanced s → IsBalanced s'
  unfolding start_task
  Step-IsBalanced {s = s} (poll now answer) b = poll-IsBalanced now answer s b
  Step-IsBalanced {s = s} (begin now d before after e) b = record {
    received = omega (int_laws, parts_of_eq b.received, ap length e, length-pick before after d);
    counted = b.counted;
    fits = b.fits;
    retried = b.retried;
  }
  Step-IsBalanced {s = s} (finish now seen answer d before after newer older e read) b =
      finish-IsBalanced now seen answer d before after s e
        (All-middle (Fits s) newer older seen (subst (All (Fits s)) read b.fits)) b
  Step-IsBalanced {s = s} (acknowledge d before after e) b =
      let same : finished s
          ≡ length (before ++ after) + suc (length s.acknowledged) + length s.unacknowledged =
        omega (arith, ap length e, length-pick before after d) in
      let s' = record s { answered = before ++ after; acknowledged = d.message ∷ s.acknowledged } in
      let still : (v : ℤ) → Fits s v → Fits s' v = λ v fits. omega (int_laws, fits, same) in
      record {
        received = omega (int_laws, parts_of_eq b.received, same);
        counted = omega (int_laws, parts_of_eq b.counted, same);
        fits = All-imply _ still (s.worker.stats.tasks_failed ∷ s.earlier) b.fits;
        retried = b.retried;
      }
  Step-IsBalanced {s = s} (acknowledge_fails d before after e) b =
      let same : finished s
          ≡ length (before ++ after) + length s.acknowledged + suc (length s.unacknowledged) =
        omega (arith, ap length e, length-pick before after d) in
      let s' = record s {
        answered = before ++ after;
        unacknowledged = d.message ∷ s.unacknowledged;
      } in
      let still : (v : ℤ) → Fits s v → Fits s' v = λ v fits. omega (int_laws, fits, same) in
      record {
        received = omega (int_laws, parts_of_eq b.received, same);
        counted = omega (int_laws, parts_of_eq b.counted, same);
        fits = All-imply _ still (s.worker.stats.tasks_failed ∷ s.earlier) b.fits;
        retried = b.retried;
      }

  -- Whatever the broker, the pool and the scheduler do, and however old the counts of failed tasks are
  -- that a goroutine reads before it writes one more: the tasks counted as received are those not begun,
  -- executing or answered by the pool; the tasks counted as succeeded or failed are never more than
  -- those that the pool has answered, and are fewer by what the old counts have undone; and no
  -- task is counted as retried. A failed acknowledgement is covered.
  pub Reachable-IsBalanced :
      {config : WorkerConfig} {s : System} → Reachable config s → IsBalanced s
  unfolding new_default_worker
  Reachable-IsBalanced start = record {
    received = omega int_laws;
    counted = omega int_laws;
    fits = (omega int_laws, tt);
    retried = refl;
  }
  Reachable-IsBalanced (step r t) = Step-IsBalanced t (Reachable-IsBalanced r)
