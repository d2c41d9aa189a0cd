-- ===== src/Service.antt =====
-- The worker of internal/worker/factory.go on the broker of internal/broker/sqs/fifo.go: the loop of
-- `processTasksLoop` with the sections of `ReceiveMessages` that it comes through, and the goroutines
-- of `executeTask` with the sections of `AcknowledgeMessage`, interleaved in any order. What one
-- mutex guards is changed at once. `sqs` says when SQS may answer with which messages, of those
-- that the broker can convert; whatever the pool, the clock and the scheduler do is covered.
pub mod Counts
pub mod Exclusive
pub mod Order
pub mod Overlap
pub mod Blocked
pub mod Gives
pub mod Poll
mod Examples
use celery_to_go.Prelude.{
  ℕ, String, ◌≡◌, ◌≢◌, true, false, List, [], ◌∷◌, ◌++◌, not, ◌==◌, if◌then◌else◌,
}
use celery_to_go.Prelude.Int.{ℤ}
use celery_to_go.Prelude.Dict
use celery_to_go.Prelude.Errors.{Reply, reply, ok}
use celery_to_go.Protocol.Payload.{TaskPayload, ResultPayload}
use celery_to_go.Broker.Message.{Message}
use celery_to_go.Broker.Groups.{
  Groups, get_messages_from_internal_queues, add_messages_to_group, mark_group_as_processing,
  mark_group_as_available, is_processing, add_probed_message,
}
use celery_to_go.Broker.Groups.Consistent.{of_group}
use celery_to_go.Worker.Types.{WorkerConfig}
use celery_to_go.Worker.Tasks.{Delivery, start_task, finish_task}
use celery_to_go.Worker.Tasks.Accounting
use celery_to_go.Worker.Tasks.Accounting.{initial, after_poll}

-- The broker's groups, the worker with its goroutines, and where the messages are on their way
-- between them: those that SQS has answered with, to a probe or not, and that are not yet
-- sorted into their groups, those that `ReceiveMessages` is about to return or has returned, and the groups of the messages
-- that are deleted from SQS and not yet marked as available. Then the books: the messages that came
-- into the groups, and those that `ReceiveMessages` has returned.
pub record System : Type 0 where
  pub groups : Groups
  pub probed : List Message
  pub delivered : List Message
  pub batch : List Message
  pub tasks : Accounting.System
  pub releasing : List String
  pub accepted : List Message
  pub returned : List Message

abbrev pub initial_service : WorkerConfig → System
initial_service config = record {
  groups = Dict.empty;
  probed = [];
  delivered = [];
  batch = [];
  tasks = initial config;
  releasing = [];
  accepted = [];
  returned = [];
}

-- The messages of all other groups.
unfoldable pub without_group : String → List Message → List Message
without_group gid [] = []
without_group gid (m ∷ ms) =
    let rest = without_group gid ms in if m.message_group_id == gid then rest else m ∷ rest

module _ (decode_task : List ℕ → Reply TaskPayload) (sqs : System → List Message → Type 0) where
  pub data Step (s : System) : System → Type 0 where
    -- `ReceiveMessages`
    take :
        (now : ℕ) (order : List String) (max : ℤ) {messages : List Message} {groups' : Groups}
        → s.probed ≡ []
        → s.delivered ≡ []
        → get_messages_from_internal_queues now order max s.groups ≡ ok (messages, groups')
        → Step s (record s {
          groups = groups';
          batch = s.batch ++ messages;
          returned = s.returned ++ messages;
        })
    answer_probe :
        (messages : List Message)
        → s.probed ≡ []
        → s.delivered ≡ []
        → sqs s messages
        → Step s (record s { probed = messages })
    answer :
        (messages : List Message)
        → s.probed ≡ []
        → s.delivered ≡ []
        → sqs s messages
        → Step s (record s { delivered = messages })
    -- `receiveBatchMessages`, for one group
    sort :
        (now : ℕ) (gid : String) (m : Message) (ms : List Message)
        → s.probed ≡ []
        → of_group gid s.delivered ≡ m ∷ ms
        → Step s (record s {
          groups = add_messages_to_group now s.groups gid (m ∷ ms);
          delivered = without_group gid s.delivered;
          batch = s.batch ++ m ∷ [];
          accepted = s.accepted ++ m ∷ ms;
          returned = s.returned ++ m ∷ [];
        })
    -- `receiveSingleMessage`
    single :
        (now : ℕ) (m : Message) (ms : List Message)
        → s.probed ≡ []
        → s.delivered ≡ m ∷ ms
        → Step s (record s {
          groups = mark_group_as_processing now s.groups m.message_group_id;
          delivered = [];
          batch = s.batch ++ m ∷ [];
          accepted = s.accepted ++ m ∷ [];
          returned = s.returned ++ m ∷ [];
        })
    single_illegal :
        (now : ℕ) (gid : String)
        → Step s (record s { groups = mark_group_as_processing now s.groups gid })
    -- `getAvailableGroups`
    probe :
        (now : ℕ) (m : Message) (ms : List Message)
        → s.probed ≡ m ∷ ms
        → s.delivered ≡ []
        → is_processing s.groups m.message_group_id ≡ false
        → Step s (record s {
          groups = add_probed_message now s.groups m.message_group_id m;
          probed = ms;
          accepted = s.accepted ++ m ∷ [];
        })
    probe_busy :
        (m : Message) (ms : List Message)
        → s.probed ≡ m ∷ ms
        → s.delivered ≡ []
        → is_processing s.groups m.message_group_id ≡ true
        → Step s (record s { probed = ms })
    -- What the code leaves of an answer.
    pass_over : Step s (record s { probed = []; delivered = [] })
    -- `processTasks`, for one message
    hand :
        (now : ℕ) (m : Message) (ms : List Message)
        → s.batch ≡ m ∷ ms
        → Step s
            (record s { batch = ms; tasks = after_poll decode_task now (reply (m ∷ [])) s.tasks })
    -- `executeTask`, where the count of failed tasks that is read may be any.
    begin :
        (now : ℕ) (d : Delivery) (before after : List Delivery)
        → s.tasks.spawned ≡ before ++ d ∷ after
        → Step s (record s {
          tasks = record s.tasks {
            worker = start_task now d s.tasks.worker;
            spawned = before ++ after;
            executing = d ∷ s.tasks.executing;
          };
        })
    finish :
        (now : ℕ) (seen : ℤ) (result : Reply ResultPayload) (d : Delivery)
        (before after : List Delivery)
        → s.tasks.executing ≡ before ++ d ∷ after
        → Step s (record s {
          tasks = record s.tasks {
            worker = finish_task now seen result d s.tasks.worker;
            executing = before ++ after;
            answered = d ∷ s.tasks.answered;
          };
        })
    -- `AcknowledgeMessage`
    delete :
        (d : Delivery) (before after : List Delivery)
        → s.tasks.answered ≡ before ++ d ∷ after
        → Step s (record s {
          tasks = record s.tasks {
            answered = before ++ after;
            acknowledged = d.message ∷ s.tasks.acknowledged;
          };
          releasing = d.message.message_group_id ∷ s.releasing;
        })
    delete_fails :
        (d : Delivery) (before after : List Delivery)
        → s.tasks.answered ≡ before ++ d ∷ after
        → Step s (record s {
          tasks = record s.tasks {
            answered = before ++ after;
            unacknowledged = d.message ∷ s.tasks.unacknowledged;
          };
        })
    release :
        (now : ℕ) (gid : String) (before after : List String)
        → s.releasing ≡ before ++ gid ∷ after
        → Step s (record s {
          groups = mark_group_as_available now s.groups gid;
          releasing = before ++ after;
        })

  pub data Run (s : System) : System → Type 0 where
    stay : Run s s
    next : {t u : System} → Run s t → Step t u → Run s u

  abbrev pub Reachable : WorkerConfig → System → Type 0
  Reachable config = Run (initial_service config)
