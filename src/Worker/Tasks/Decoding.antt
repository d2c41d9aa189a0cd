-- ===== src/Worker/Tasks/Decoding.antt =====
-- Which messages `processTasks` turns into tasks.
use celery_to_go.Prelude.{ℕ, ◌≡◌, refl, ap, ◌∙◌, List, [], ◌∷◌, ◌++◌, none, some, length, inl, inr}
use celery_to_go.Prelude.Int.{pos, ◌+ℤ◌, int_laws}
use celery_to_go.Prelude.Errors.{Error, wrap, Reply, reply, failed, Reply-cases}
use celery_to_go.Protocol.Payload.{TaskPayload}
use celery_to_go.Broker.Message.{Message}
use celery_to_go.Worker.Types.{Worker, WorkerStats}
use celery_to_go.Worker.Tasks.{Delivery, process_messages, process_tasks, receive_task}

abbrev pub counted : ℕ → WorkerStats → WorkerStats
counted n s = record s { tasks_received = s.tasks_received +ℤ pos n }

module _ (decode_task : List ℕ → Reply TaskPayload) where
  -- The messages that decode, each with what it decodes to.
  unfoldable pub decoded : List Message → List Delivery
  decoded [] = []
  decoded (m ∷ ms) =
      let rest = decoded ms in
      elim (decode_task m.body) [
        | reply payload ↦ record { payload = payload; message = m } ∷ rest
        | failed _ ↦ rest
      ]

  -- A batch of messages starts one task for each message that decodes, in the order of the batch,
  -- drops the others without a further trace, and counts as received the tasks that it starts.
  pub process_messages_lem :
      (now : ℕ) (ms : List Message) (w : Worker)
      → ((process_messages decode_task now ms w).0 ≡ decoded ms)
        × ((process_messages decode_task now ms w).1.stats ≡ counted (length (decoded ms)) w.stats)
  unfolding process_messages decoded receive_task
  process_messages_lem now [] w =
      (refl, ap (λ n. record w.stats { tasks_received = n }) (omega int_laws))
  process_messages_lem now (m ∷ ms) w = elim (Reply-cases (decode_task m.body)) [
    | inr (e, bad) ↦ rw (bad, process_messages, decoded) (process_messages_lem now ms w)
    | inl (payload, good) ↦
        let d : Delivery = record { payload = payload; message = m } in
        let (same, count) = process_messages_lem now ms (receive_task now d w) in
        rw (good, process_messages, decoded)
          (
            ap (λ ds. d ∷ ds) same,
            count ∙ ap (λ n. record w.stats { tasks_received = n }) (omega int_laws),
          )
  ]

  -- The goroutines that a round of `processTasks` starts.
  pub process_tasks-decoded :
      (now : ℕ) (ms : List Message) (w : Worker)
      → (process_tasks decode_task now (reply ms) w).1 ≡ decoded ms
  unfolding process_tasks
  process_tasks-decoded now ms w = (process_messages_lem now ms w).0

  pub process_tasks-reply :
      (now : ℕ) (ms : List Message) (w : Worker)
      → process_tasks decode_task now (reply ms) w ≡ (
        none,
        (process_messages decode_task now ms w).0,
        (process_messages decode_task now ms w).1,
      )
  unfolding process_tasks
  process_tasks-reply now ms w = refl

  -- A batch, one message after the other.
  pub process_messages-split :
      (now : ℕ) (m : Message) (ms : List Message) (w : Worker)
      → let (ds, w') = process_messages decode_task now (m ∷ []) w in
        let (ds', w'') = process_messages decode_task now ms w' in
        process_messages decode_task now (m ∷ ms) w ≡ (ds ++ ds', w'')
  unfolding process_messages
  process_messages-split now m ms w = elim (Reply-cases (decode_task m.body)) [
    | inr (e, bad) ↦ rw (bad, process_messages) refl
    | inl (payload, good) ↦ rw (good, process_messages) refl
  ]

  pub process_messages-nil :
      (now : ℕ) (w : Worker) → process_messages decode_task now [] w ≡ ([], w)
  unfolding process_messages
  process_messages-nil now w = refl

  pub process_tasks-failed :
      (now : ℕ) (e : Error) (w : Worker)
      → process_tasks decode_task now (failed e) w
        ≡ (some (wrap "failed to receive messages" e), [], w)
  unfolding process_tasks
  process_tasks-failed now e w = refl
