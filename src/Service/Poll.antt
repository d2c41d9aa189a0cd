-- ===== src/Service/Poll.antt =====
-- `processTasks` of internal/worker/factory.go with its call of `ReceiveMessages`, and
-- `AcknowledgeMessage` as `executeTask` calls it: each as a run of the service, if no other goroutine moves.
use celery_to_go.Prelude.{ℕ, ◌++◌, Option, none, some, List, ◌∷◌}
use celery_to_go.Prelude.Errors.{Error, Reply, reply, failed, Result, ok, err, panic}
use celery_to_go.Protocol.Payload.{TaskPayload}
use celery_to_go.Broker.Message.{Message}
use celery_to_go.Broker.Config.{Broker}
use celery_to_go.Broker.Client.{Client}
use celery_to_go.Broker.Groups.{Groups}
use celery_to_go.Broker.Receive.{receive_messages}
use celery_to_go.Worker.Types.{Worker}
use celery_to_go.Worker.Tasks.{Delivery, process_messages, process_tasks}
use celery_to_go.Worker.Tasks.Accounting
use celery_to_go.Service.{System}

module _ (decode_task : List ℕ → Reply TaskPayload) where
  -- The worker after a batch.
  abbrev after_messages : ℕ → List Message → Accounting.System → Accounting.System
  after_messages now ms tasks =
      let r = process_messages decode_task now ms tasks.worker in
      record tasks { worker = r.1; spawned = tasks.spawned ++ r.0 }

module _ (c : Client) (decode_task : List ℕ → Reply TaskPayload) where
  open c use {World, range_keys}

  -- `processTasks`: its error, the goroutines that it starts, and the worker and the broker after it.
  pub poll :
      ℕ → Worker → Broker → World → Result (Option Error × List Delivery × Worker) × Broker × World
  poll now worker b w =
      let (result, b', w') = receive_messages c worker.config.queue_prefetch b w in
      elim result [
        | ok messages ↦ (ok (process_tasks decode_task now (reply messages) worker), b', w')
        | err e ↦ (ok (process_tasks decode_task now (failed e) worker), b', w')
        | panic ↦ (panic, b', w')
      ]

  -- What becomes of a goroutine that has called `AcknowledgeMessage`, with this error or none.
  abbrev pub settled :
      Option Error → Delivery → (others : List Delivery) → Accounting.System → Accounting.System
  settled none d others tasks = record tasks {
    answered = others;
    acknowledged = d.message ∷ tasks.acknowledged;
  }
  settled (some e) d others tasks = record tasks {
    answered = others;
    unacknowledged = d.message ∷ tasks.unacknowledged;
  }
