-- ===== src/Service/Overlap.antt =====
-- A message of a group that SQS gives while the worker executes another one of it: what
-- `addMessagesToGroup` and `receiveBatchMessages` do with it.
use celery_to_go.Prelude.{ℕ, ◌≡◌, ◌<◌, ◌++◌, List, [], ◌∷◌, arith, refl, ap, ◌∙◌, eq_refl}
use celery_to_go.Prelude.Errors.{Reply, reply}
use celery_to_go.Protocol.Payload.{TaskPayload}
use celery_to_go.Broker.Message.{Message}
use celery_to_go.Broker.Groups.Consistent.{of_group}
use celery_to_go.Worker.Tasks.{Delivery}
use celery_to_go.Worker.Tasks.Decoding.{decoded, process_tasks-decoded}
use celery_to_go.Service.{System, Run, stay, next, answer, sort, hand, begin}
use celery_to_go.Service.Counts.{running, one, running-cons}

of_group-single : (m : Message) → of_group m.message_group_id (m ∷ []) ≡ m ∷ []
unfolding of_group
of_group-single m = rw (eq_refl m.message_group_id) refl

one_own : (m : Message) → one m.message_group_id m ≡ 1
unfolding one
one_own m = rw (eq_refl m.message_group_id) refl

module _ (decode_task : List ℕ → Reply TaskPayload) (sqs : System → List Message → Type 0) where
  decoded_one :
      (m : Message) (payload : TaskPayload)
      → decode_task m.body ≡ reply payload
      → decoded decode_task (m ∷ []) ≡ record { payload = payload; message = m } ∷ []
  unfolding decoded
  decoded_one m payload e = rw (e, decoded) refl

  -- If SQS gives a message of a group while the worker executes a task of it, as it does when the
  -- visibility timeout of that task's message runs out, then the two tasks can be executed at once,
  -- whether the group is marked as being processed or not: for any state in which the loop comes to ask SQS, and
  -- any message that decodes.
  pub redelivery_overlaps :
      (now : ℕ) (s : System) (m : Message) (payload : TaskPayload)
      → s.probed ≡ []
      → s.delivered ≡ []
      → s.batch ≡ []
      → sqs s (m ∷ [])
      → decode_task m.body ≡ reply payload
      → 0 < running m.message_group_id s.tasks.executing
      → (t : System) × Run decode_task sqs s t
        × (t.tasks.executing ≡ record { payload = payload; message = m } ∷ s.tasks.executing)
        × (1 < running m.message_group_id t.tasks.executing)
  redelivery_overlaps now s m payload no_probe no_answer no_batch given decodes busy =
      let d : Delivery = record { payload = payload; message = m } in
      let s₁ = next stay (answer (m ∷ []) no_probe no_answer given) in
      let s₂ = next s₁ (sort now m.message_group_id m [] no_probe (of_group-single m)) in
      let s₃ = next s₂ (hand now m [] (ap (λ b. b ++ m ∷ []) no_batch)) in
      let s₄ = next s₃ (
        begin now d s.tasks.spawned [] (
          ap (λ ds. s.tasks.spawned ++ ds)
            (process_tasks-decoded decode_task now (m ∷ []) s.tasks.worker
              ∙ decoded_one m payload decodes))) in
      (_, s₄, refl, omega (arith, running-cons m.message_group_id d s.tasks.executing, one_own m))
