-- ===== src/Service/Blocked/Steps.antt =====
-- What every step of the service leaves of a group that is marked as being processed while no message
-- of it is on its way.
use celery_to_go.Prelude.{
  ℕ, String, ◌≡◌, ◌++◌, true, false, List, [], ◌∷◌, All, All-append, arith, ◌==◌, ap, sym, subst,
  eq_iff, ◌∙◌, inl, inr, Bool-cases,
}
use celery_to_go.Prelude.Errors.{Reply}
use celery_to_go.Protocol.Payload.{TaskPayload}
use celery_to_go.Broker.Message.{Message}
use celery_to_go.Broker.Convert.Batch.{of_group-Belong}
use celery_to_go.Broker.Groups.{is_processing}
use celery_to_go.Broker.Groups.Consistent.{of_group, Belong, IsConsistent, queued}
use celery_to_go.Broker.Groups.Views.{
  Taken, get_messages-Taken, mark_group_as_processing-view, add_messages_to_group-other,
  mark_group_as_available-other, add_probed_message-view,
}
use celery_to_go.Broker.Groups.Queued.{
  mark_group_as_processing-queued, mark_group_as_available-queued, add_probed_message-queued,
}
use celery_to_go.Broker.Groups.Fifo.{get_messages-line}
use celery_to_go.Worker.Tasks.{start_task, finish_task}
use celery_to_go.Service.{
  System, Step, take, answer, answer_probe, sort, single, single_illegal, probe, probe_busy,
  pass_over, hand, begin, finish, delete, delete_fails, release, Run, stay, next,
}
use celery_to_go.Service.Exclusive.{Step-IsConsistent}
use celery_to_go.Service.Counts.{
  count, one, held, count-nil, count-cons, count-append, count-without_group, held-hand, held-begin,
  held-finish, held-delete,
}

-- No message of the group is on its way, it is marked, and these messages wait in its queue.
pub record IsBlocked (gid : String) (queue : List Message) (s : System) : Type 0 where
  pub none_held : held gid s ≡ 0
  pub none_delivered : count gid s.delivered ≡ 0
  pub none_probed : count gid s.probed ≡ 0
  pub none_releasing : All (λ j. (j == gid) ≡ false) s.releasing
  pub marked : is_processing s.groups gid ≡ true
  pub queue_stays : queued s.groups gid ≡ queue

no_message : (gid : String) (ms : List Message) → count gid ms ≡ 0 → of_group gid ms ≡ []
unfolding count
no_message gid ms h = ground arith

taken_out :
    (P : String → Type 0) (before after : List String) (j : String)
    → All P (before ++ j ∷ after)
    → All P before × P j × All P after
taken_out P [] after j h = (tt, h.0, h.1)
taken_out P (k ∷ before) after j h =
    let (before', here, after') = taken_out P before after j h.1 in ((h.0, before'), here, after')

module _ (decode_task : List ℕ → Reply TaskPayload) (sqs : System → List Message → Type 0)
    (gid : String) (queue : List Message)
    (silent : (s : System) (ms : List Message) → sqs s ms → count gid ms ≡ 0) where
  other_group :
      (j : String) (s : System) (m : Message) (ms : List Message)
      → of_group j s.delivered ≡ m ∷ ms
      → count gid s.delivered ≡ 0
      → (j == gid) ≡ false
  unfolding count
  other_group j s m ms e h = elim (Bool-cases (j == gid)) [
    | inl same ↦ absurd (
        cc (
          ap (λ k. of_group k s.delivered) ((eq_iff j gid).0 same),
          e,
          no_message gid s.delivered h,
        ))
    | inr other ↦ other
  ]

  other_message :
      (s : System) (m : Message) (ms : List Message)
      → s.probed ≡ m ∷ ms
      → count gid s.probed ≡ 0
      → (m.message_group_id == gid) ≡ false
  unfolding one
  other_message s m ms e h = ground (arith, ap (count gid) e, count-cons gid m ms)

  Step-IsBlocked :
      {s t : System}
      → Step decode_task sqs s t
      → IsConsistent s.groups
      → IsBlocked gid queue s
      → IsBlocked gid queue t
  unfolding held one
  Step-IsBlocked {s = s} (take now order max {messages} {groups'} no_probe no_answer e) c b =
      let taken : Taken gid s.groups groups' (count gid messages) =
        unfold count in get_messages-Taken now order max s.groups groups' messages gid e c in
      let none_taken : count gid messages ≡ 0 = ground (arith, b.marked) in
      let same_line = (get_messages-line now order max s.groups groups' messages e c).1 gid in
      record {
        none_held = ground (arith, b.none_held, count-append gid s.batch messages);
        none_delivered = b.none_delivered;
        none_probed = b.none_probed;
        none_releasing = b.none_releasing;
        marked = ground (arith, b.marked);
        queue_stays =
            ap (λ l. l ++ queued groups' gid) (sym (no_message gid messages none_taken))
            ∙ same_line
            ∙ b.queue_stays;
      }
  Step-IsBlocked {s = s} (sort now j m ms no_probe e) c b =
      let other = other_group j s m ms e b.none_delivered in
      let (same_queue, same_mark) = add_messages_to_group-other now s.groups j gid (m ∷ ms) other in
      let own : m.message_group_id ≡ j = (subst (Belong j) e (of_group-Belong j s.delivered)).0 in
      record {
        none_held = ground (
          arith,
          b.none_held,
          count-append gid s.batch (m ∷ []),
          count-cons gid m [],
          count-nil gid,
        );
        none_delivered = ground (arith, b.none_delivered, count-without_group j gid s.delivered);
        none_probed = b.none_probed;
        none_releasing = b.none_releasing;
        marked = same_mark ∙ b.marked;
        queue_stays = same_queue ∙ b.queue_stays;
      }
  Step-IsBlocked {s = s} (single now m ms no_probe e) c b = record {
    none_held = ground (
      arith,
      b.none_held,
      b.none_delivered,
      ap (count gid) e,
      count-cons gid m ms,
      count-append gid s.batch (m ∷ []),
      count-cons gid m [],
      count-nil gid,
    );
    none_delivered = count-nil gid;
    none_probed = b.none_probed;
    none_releasing = b.none_releasing;
    marked =
        ground (arith, b.marked, mark_group_as_processing-view now s.groups m.message_group_id gid);
    queue_stays =
        mark_group_as_processing-queued now s.groups m.message_group_id gid ∙ b.queue_stays;
  }
  Step-IsBlocked {s = s} (single_illegal now j) c b = record {
    none_held = b.none_held;
    none_delivered = b.none_delivered;
    none_probed = b.none_probed;
    none_releasing = b.none_releasing;
    marked = ground (arith, b.marked, mark_group_as_processing-view now s.groups j gid);
    queue_stays = mark_group_as_processing-queued now s.groups j gid ∙ b.queue_stays;
  }
  Step-IsBlocked {s = s} (probe now m ms e no_answer idle) c b =
      let j = m.message_group_id in
      let same_mark = (add_probed_message-view now s.groups j gid m).1 in
      record {
        none_held = b.none_held;
        none_delivered = b.none_delivered;
        none_probed = ground (arith, b.none_probed, ap (count gid) e, count-cons gid m ms);
        none_releasing = b.none_releasing;
        marked = same_mark ∙ b.marked;
        queue_stays =
            rw (add_probed_message-queued, other_message s m ms e b.none_probed) b.queue_stays;
      }
  Step-IsBlocked {s = s} (release now j before after e) c b =
      let (before_other, here, after_other) =
        taken_out (λ i. (i == gid) ≡ false) before after j
          (subst (All (λ i. (i == gid) ≡ false)) e b.none_releasing) in
      record {
        none_held = b.none_held;
        none_delivered = b.none_delivered;
        none_probed = b.none_probed;
        none_releasing = All-append _ before after before_other after_other;
        marked = mark_group_as_available-other now s.groups j gid here ∙ b.marked;
        queue_stays = mark_group_as_available-queued now s.groups j gid ∙ b.queue_stays;
      }
  Step-IsBlocked {s = s} (answer ms no_probe no_answer ok) c b = record {
    none_held = b.none_held;
    none_delivered = silent s ms ok;
    none_probed = b.none_probed;
    none_releasing = b.none_releasing;
    marked = b.marked;
    queue_stays = b.queue_stays;
  }
  Step-IsBlocked {s = s} (answer_probe ms no_probe no_answer ok) c b = record {
    none_held = b.none_held;
    none_delivered = b.none_delivered;
    none_probed = silent s ms ok;
    none_releasing = b.none_releasing;
    marked = b.marked;
    queue_stays = b.queue_stays;
  }
  Step-IsBlocked {s = s} (probe_busy m ms e no_answer busy) c b = record {
    none_held = b.none_held;
    none_delivered = b.none_delivered;
    none_probed = ground (arith, b.none_probed, ap (count gid) e, count-cons gid m ms);
    none_releasing = b.none_releasing;
    marked = b.marked;
    queue_stays = b.queue_stays;
  }
  Step-IsBlocked pass_over c b = record {
    none_held = b.none_held;
    none_delivered = count-nil gid;
    none_probed = count-nil gid;
    none_releasing = b.none_releasing;
    marked = b.marked;
    queue_stays = b.queue_stays;
  }
  Step-IsBlocked {s = s} (hand now m ms e) c b = record {
    none_held = omega (arith, held-hand decode_task gid s now m ms e, b.none_held);
    none_delivered = b.none_delivered;
    none_probed = b.none_probed;
    none_releasing = b.none_releasing;
    marked = b.marked;
    queue_stays = b.queue_stays;
  }
  Step-IsBlocked {s = s} (begin now d before after e) c b = record {
    none_held = held-begin gid s d before after (start_task now d s.tasks.worker) e ∙ b.none_held;
    none_delivered = b.none_delivered;
    none_probed = b.none_probed;
    none_releasing = b.none_releasing;
    marked = b.marked;
    queue_stays = b.queue_stays;
  }
  Step-IsBlocked {s = s} (finish now seen r d before after e) c b = record {
    none_held =
        held-finish gid s d before after (finish_task now seen r d s.tasks.worker) e ∙ b.none_held;
    none_delivered = b.none_delivered;
    none_probed = b.none_probed;
    none_releasing = b.none_releasing;
    marked = b.marked;
    queue_stays = b.queue_stays;
  }
  Step-IsBlocked {s = s} (delete d before after e) c b =
      let sum =
        held-delete gid s d before after (d.message ∷ s.tasks.acknowledged) s.tasks.unacknowledged
          (d.message.message_group_id ∷ s.releasing) e in
      record {
        none_held = omega (arith, sum, b.none_held);
        none_delivered = b.none_delivered;
        none_probed = b.none_probed;
        none_releasing = (ground (arith, sum, b.none_held), b.none_releasing);
        marked = b.marked;
        queue_stays = b.queue_stays;
      }
  Step-IsBlocked {s = s} (delete_fails d before after e) c b = record {
    none_held = omega (
      arith,
      held-delete gid s d before after s.tasks.acknowledged (d.message ∷ s.tasks.unacknowledged)
          s.releasing e,
      b.none_held,
    );
    none_delivered = b.none_delivered;
    none_probed = b.none_probed;
    none_releasing = b.none_releasing;
    marked = b.marked;
    queue_stays = b.queue_stays;
  }

  pub Run-IsBlocked :
      {s t : System}
      → Run decode_task sqs s t
      → IsConsistent s.groups
      → IsBlocked gid queue s
      → IsConsistent t.groups × IsBlocked gid queue t
  Run-IsBlocked stay c b = (c, b)
  Run-IsBlocked (next r st) c b =
      let (c', b') = Run-IsBlocked r c b in
      (Step-IsConsistent decode_task sqs st c', Step-IsBlocked st c' b')
