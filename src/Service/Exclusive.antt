-- ===== src/Service/Exclusive.antt =====
-- The order and the exclusion of the tasks of a message group, over the broker and the worker.
use celery_to_go.Prelude.{
  ℕ, suc, String, ◌≡◌, ◌⊎◌, ◌≤◌, ◌++◌, true, List, [], ◌∷◌, length, arith, refl, ap, subst, eq_iff,
  inl,
}
use celery_to_go.Prelude.Dict.{get-empty}
use celery_to_go.Prelude.Errors.{Reply}
use celery_to_go.Protocol.Payload.{TaskPayload}
use celery_to_go.Broker.Message.{Message}
use celery_to_go.Broker.Convert.Batch.{of_group-Belong}
use celery_to_go.Broker.Groups.{MessageGroupQueue, is_processing, add_messages_to_group}
use celery_to_go.Broker.Groups.Consistent.{
  of_group, Belong, IsConsistent, add_messages_to_group-IsConsistent,
  mark_group_as_processing-IsConsistent, mark_group_as_available-IsConsistent,
  add_probed_message-IsConsistent,
}
use celery_to_go.Broker.Groups.Fifo.{get_messages-line}
use celery_to_go.Broker.Groups.Views.{
  waiting, Taken, get_messages-Taken, add_messages_to_group-view, mark_group_as_processing-view,
  mark_group_as_available-view, add_probed_message-view,
}
use celery_to_go.Worker.Types.{WorkerConfig}
use celery_to_go.Worker.Tasks.Accounting
use celery_to_go.Worker.Tasks.Accounting.{after_poll}
use celery_to_go.Service.{
  System, Step, take, answer, answer_probe, sort, single, single_illegal, probe, probe_busy,
  pass_over, hand, begin, finish, delete, delete_fails, release, Reachable, stay, next,
  without_group, initial_service,
}
use celery_to_go.Service.Counts.{
  count, one, held, count-nil, count-cons, count-append, count-without_group, running-nil,
  held-hand, held-begin, held-finish, held-delete,
}

-- A group and the messages that the program has of it: one of its tasks at most is under way; SQS has
-- given messages of it only when there was none; and it is marked while more of them wait.
pub record IsExclusive (gid : String) (s : System) : Type 0 where
  pub at_most_one : held gid s ≤ 1
  pub delivered_alone :
      (count gid s.delivered ≡ 0) ⊎ ((held gid s ≡ 0) × (waiting gid s.groups ≡ 0))
  pub probed_alone : (count gid s.probed ≡ 0) ⊎ (held gid s ≡ 0)
  pub marked : (held gid s ≡ 0) ⊎ ((waiting gid s.groups ≡ 0) ⊎ (is_processing s.groups gid ≡ true))

module _ (decode_task : List ℕ → Reply TaskPayload) (sqs : System → List Message → Type 0) where
  pub Step-IsConsistent :
      {s t : System} → Step decode_task sqs s t → IsConsistent s.groups → IsConsistent t.groups
  Step-IsConsistent (take now order max no_probe no_answer e) c =
      (get_messages-line now order max _ _ _ e c).0
  Step-IsConsistent {s = s} (sort now gid m ms no_probe e) c =
      add_messages_to_group-IsConsistent now s.groups gid (m ∷ ms) c
        (subst (Belong gid) e (of_group-Belong gid s.delivered))
  Step-IsConsistent {s = s} (single now m ms no_probe e) c =
      mark_group_as_processing-IsConsistent now s.groups m.message_group_id c
  Step-IsConsistent {s = s} (single_illegal now gid) c =
      mark_group_as_processing-IsConsistent now s.groups gid c
  Step-IsConsistent {s = s} (probe now m ms e no_answer idle) c =
      add_probed_message-IsConsistent now s.groups m.message_group_id m c refl
  Step-IsConsistent {s = s} (release now gid before after e) c =
      mark_group_as_available-IsConsistent now s.groups gid c
  Step-IsConsistent (answer ms no_probe no_answer ok) c = c
  Step-IsConsistent (answer_probe ms no_probe no_answer ok) c = c
  Step-IsConsistent (probe_busy m ms e no_answer busy) c = c
  Step-IsConsistent pass_over c = c
  Step-IsConsistent (hand now m ms e) c = c
  Step-IsConsistent (begin now d before after e) c = c
  Step-IsConsistent (finish now seen r d before after e) c = c
  Step-IsConsistent (delete d before after e) c = c
  Step-IsConsistent (delete_fails d before after e) c = c

module _ (decode_task : List ℕ → Reply TaskPayload) (sqs : System → List Message → Type 0)
    (fifo : (s : System) (ms : List Message) (gid : String)
      → sqs s ms
      → (count gid ms ≡ 0) ⊎ ((held gid s ≡ 0) × (waiting gid s.groups ≡ 0))) where
  -- A step of a goroutine that takes on no message of the group.
  lighter :
      (gid : String) (s : System) (batch : List Message) (tasks : Accounting.System)
      (releasing : List String)
      → held gid (record s { batch = batch; tasks = tasks; releasing = releasing }) ≤ held gid s
      → IsExclusive gid s
      → IsExclusive gid (record s { batch = batch; tasks = tasks; releasing = releasing })
  unfolding held
  lighter gid s batch tasks releasing h x = ground arith

  sort-IsExclusive :
      (now : ℕ) (j gid : String) (s : System) (m : Message) (ms : List Message)
      → s.probed ≡ []
      → of_group j s.delivered ≡ m ∷ ms
      → ((i : String) → IsExclusive i s)
      → IsExclusive gid (record s {
        groups = add_messages_to_group now s.groups j (m ∷ ms);
        delivered = without_group j s.delivered;
        batch = s.batch ++ m ∷ [];
        accepted = s.accepted ++ m ∷ ms;
        returned = s.returned ++ m ∷ [];
      })
  unfolding held one
  sort-IsExclusive now j gid s m ms no_probe e x =
      let there : count j s.delivered ≡ suc (length ms) = unfold count in ap length e in
      let own : m.message_group_id ≡ j = (subst (Belong j) e (of_group-Belong j s.delivered)).0 in
      let (none_held, none_waits) : (held j s ≡ 0) × (waiting j s.groups ≡ 0) =
        ground (arith, (x j).delivered_alone) in
      let view = add_messages_to_group-view now s.groups j gid m ms none_waits in
      let rest = count-without_group j gid s.delivered in
      let sum = count-append gid s.batch (m ∷ []) in
      let head = count-cons gid m [] in
      let empty_one = count-nil gid in let same = eq_iff j gid in let before = x gid in ground arith

  Step-IsExclusive :
      {s t : System} (gid : String)
      → Step decode_task sqs s t
      → IsConsistent s.groups
      → ((j : String) → IsExclusive j s)
      → IsExclusive gid s
      → IsExclusive gid t
  unfolding held one
  Step-IsExclusive {s = s} gid (take now order max {messages} {groups'} no_probe no_answer e) c x
        h =
      let taken : Taken gid s.groups groups' (count gid messages) =
        unfold count in get_messages-Taken now order max s.groups groups' messages gid e c in
      ground (
        arith,
        taken,
        count-append gid s.batch messages,
        ap (count gid) no_probe,
        ap (count gid) no_answer,
        count-nil gid,
      )
  Step-IsExclusive {s = s} gid (sort now j m ms no_probe e) c x h =
      sort-IsExclusive now j gid s m ms no_probe e x
  Step-IsExclusive {s = s} gid (single now m ms no_probe e) c x h = ground (
    arith,
    count-append gid s.batch (m ∷ []),
    count-cons gid m [],
    count-nil gid,
    ap (count gid) no_probe,
    mark_group_as_processing-view now s.groups m.message_group_id gid,
    ap (count gid) e,
    count-cons gid m ms,
  )
  Step-IsExclusive {s = s} gid (single_illegal now j) c x h =
      ground (arith, mark_group_as_processing-view now s.groups j gid)
  Step-IsExclusive {s = s} gid (probe now m ms e no_answer idle) c x h = ground (
    arith,
    count-cons gid m ms,
    ap (count gid) e,
    eq_iff m.message_group_id gid,
    add_probed_message-view now s.groups m.message_group_id gid m,
    ap (count gid) no_answer,
    count-nil gid,
  )
  Step-IsExclusive {s = s} gid (release now j before after e) c x h =
      ground (arith, mark_group_as_available-view now s.groups j gid)
  Step-IsExclusive {s = s} gid (answer ms no_probe no_answer ok) c x h = record {
    at_most_one = h.at_most_one;
    delivered_alone = fifo s ms gid ok;
    probed_alone = h.probed_alone;
    marked = h.marked;
  }
  Step-IsExclusive {s = s} gid (answer_probe ms no_probe no_answer ok) c x h = record {
    at_most_one = h.at_most_one;
    delivered_alone = h.delivered_alone;
    probed_alone = ground (arith, fifo s ms gid ok);
    marked = h.marked;
  }
  Step-IsExclusive {s = s} gid (probe_busy m ms e no_answer busy) c x h =
      ground (arith, ap (count gid) e, count-cons gid m ms)
  Step-IsExclusive {s = s} gid pass_over c x h = ground (arith, count-nil gid)
  Step-IsExclusive {s = s} gid (hand now m ms e) c x h =
      lighter gid s ms _ s.releasing (held-hand decode_task gid s now m ms e) h
  Step-IsExclusive {s = s} gid (begin now d before after e) c x h =
      lighter gid s s.batch _ s.releasing (omega (arith, held-begin gid s d before after _ e)) h
  Step-IsExclusive {s = s} gid (finish now seen r d before after e) c x h =
      lighter gid s s.batch _ s.releasing (omega (arith, held-finish gid s d before after _ e)) h
  Step-IsExclusive {s = s} gid (delete d before after e) c x h =
      lighter gid s s.batch _ (d.message.message_group_id ∷ s.releasing)
        (omega (
          arith,
          held-delete gid s d before after (d.message ∷ s.tasks.acknowledged) s.tasks.unacknowledged
              (d.message.message_group_id ∷ s.releasing) e,
        ))
        h
  Step-IsExclusive {s = s} gid (delete_fails d before after e) c x h =
      lighter gid s s.batch _ s.releasing
        (omega (
          arith,
          held-delete gid s d before after s.tasks.acknowledged (d.message ∷ s.tasks.unacknowledged)
              s.releasing e,
        ))
        h

  abbrev IsInvariant : System → Type 0
  IsInvariant s = IsConsistent s.groups × ((gid : String) → IsExclusive gid s)

  initial_service-IsInvariant : (config : WorkerConfig) → IsInvariant (initial_service config)
  unfolding held
  initial_service-IsInvariant config = (
    record { at = λ gid group found. absurd (cc (get-empty {V = MessageGroupQueue} gid, found)) },
    λ gid. record {
      at_most_one = omega (arith, count-nil gid, running-nil gid);
      delivered_alone = inl (count-nil gid);
      probed_alone = inl (count-nil gid);
      marked = inl (omega (arith, count-nil gid, running-nil gid));
    },
  )

  pub Reachable-IsInvariant :
      (config : WorkerConfig) {s : System} → Reachable decode_task sqs config s → IsInvariant s
  Reachable-IsInvariant config stay = initial_service-IsInvariant config
  Reachable-IsInvariant config (next r st) =
      let (c, x) = Reachable-IsInvariant config r in
      (Step-IsConsistent decode_task sqs st c, λ gid. Step-IsExclusive gid st c x (x gid))

  -- If SQS gives no message of a group of which the program has one, in the broker's queue or
  -- returned by `ReceiveMessages` and not yet at the end of its acknowledgement's call of SQS, then
  -- whatever the broker, the worker, the pool and the scheduler do, at most one message of a group is
  -- returned and not yet at that end: no two tasks of one group are ever executed at once.
  pub Reachable-at_most_one :
      (config : WorkerConfig) (s : System) (gid : String)
      → Reachable decode_task sqs config s
      → held gid s ≤ 1
  Reachable-at_most_one config s gid r = ((Reachable-IsInvariant config r).1 gid).at_most_one
