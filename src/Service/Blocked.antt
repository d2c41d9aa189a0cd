-- ===== src/Service/Blocked.antt =====
-- A group that is marked as being processed while no task of it is under way, as after a message that
-- `processTasks` cannot decode.
mod Steps
use celery_to_go.Prelude.{ℕ, ◌≡◌, true, false, List, [], ◌∷◌, All, arith, ◌==◌, refl, ap, eq_iff}
use mathlib.Core.List.{append-nil}
use celery_to_go.Prelude.Errors.{Error, Reply, reply, failed}
use celery_to_go.Protocol.Payload.{TaskPayload}
use celery_to_go.Broker.Message.{Message}
use celery_to_go.Broker.Groups.{is_processing}
use celery_to_go.Broker.Groups.Consistent.{IsConsistent, queued}
use celery_to_go.Worker.Tasks.Decoding.{decoded, process_tasks-decoded}
use celery_to_go.Worker.Tasks.Accounting.{after_poll}
use celery_to_go.Service.{System, Run}
use celery_to_go.Service.Counts.{count, one, held, count-cons}
use celery_to_go.Service.Blocked.Steps.{IsBlocked, Run-IsBlocked}

none_decoded :
    (decode_task : List ℕ → Reply TaskPayload) (m : Message) (problem : Error)
    → decode_task m.body ≡ failed problem
    → decoded decode_task (m ∷ []) ≡ []
unfolding decoded
none_decoded decode_task m problem bad = rw (bad, decoded) refl

-- The message that is dropped.
dropped_held :
    (decode_task : List ℕ → Reply TaskPayload) (now : ℕ) (s : System) (m : Message)
    (ms : List Message) (problem : Error)
    → s.batch ≡ m ∷ ms
    → decode_task m.body ≡ failed problem
    → held m.message_group_id s ≡ 1
    → held m.message_group_id
        (record s { batch = ms; tasks = after_poll decode_task now (reply (m ∷ [])) s.tasks })
      ≡ 0
unfolding held one
dropped_held decode_task now s m ms problem here bad only =
    let gid = m.message_group_id in
    rw
      (
        process_tasks-decoded decode_task now (m ∷ []) s.tasks.worker,
        none_decoded decode_task m problem bad,
        append-nil,
      )
      (ground (arith, ap (count gid) here, count-cons gid m ms, eq_iff gid gid))

-- When the only message of a group that is on its way, in a batch that `ReceiveMessages` has
-- returned, does not decode, and its group is marked as being processed, then as long as SQS gives
-- no message of that group again, the group stays marked whatever else happens, none of its messages
-- is handed out, and those in its queue stay there.
pub undecodable_blocks :
    (decode_task : List ℕ → Reply TaskPayload) (sqs : System → List Message → Type 0) (now : ℕ)
    (s t : System) (m : Message) (ms : List Message) (problem : Error)
    → ((s : System) (ms : List Message) → sqs s ms → count m.message_group_id ms ≡ 0)
    → IsConsistent s.groups
    → s.batch ≡ m ∷ ms
    → decode_task m.body ≡ failed problem
    → held m.message_group_id s ≡ 1
    → count m.message_group_id s.delivered ≡ 0
    → count m.message_group_id s.probed ≡ 0
    → All (λ j. (j == m.message_group_id) ≡ false) s.releasing
    → is_processing s.groups m.message_group_id ≡ true
    → Run decode_task sqs
        (record s { batch = ms; tasks = after_poll decode_task now (reply (m ∷ [])) s.tasks })
        t
    → (held m.message_group_id t ≡ 0)
      × (is_processing t.groups m.message_group_id ≡ true)
      × (queued t.groups m.message_group_id ≡ queued s.groups m.message_group_id)
undecodable_blocks decode_task sqs now s t m ms problem silent consistent here bad only no_delivered
      no_probed no_releasing busy run =
    let gid = m.message_group_id in
    let b : IsBlocked gid (queued s.groups gid)
        (record s { batch = ms; tasks = after_poll decode_task now (reply (m ∷ [])) s.tasks }) =
      record {
        none_held = dropped_held decode_task now s m ms problem here bad only;
        none_delivered = no_delivered;
        none_probed = no_probed;
        none_releasing = no_releasing;
        marked = busy;
        queue_stays = refl;
      } in
    let (_, b') = Run-IsBlocked decode_task sqs gid (queued s.groups gid) silent run consistent b in
    (b'.none_held, b'.marked, b'.queue_stays)
