-- ===== src/Service/Order.antt =====
-- The order of the messages of a group on their way from SQS through the broker to the worker.
use celery_to_go.Prelude.{
  ℕ, String, ◌≡◌, ◌⊎◌, ◌++◌, false, List, [], ◌∷◌, length, arith, ◌==◌, if◌then◌else◌, refl, ap,
  sym, subst, eq_iff, ◌∙◌, inl, inr, Bool-cases,
}
use mathlib.Core.List.{append-nil, append_assoc}
use celery_to_go.Prelude.Dict
use celery_to_go.Prelude.Errors.{Reply}
use celery_to_go.Protocol.Payload.{TaskPayload}
use celery_to_go.Broker.Message.{Message}
use celery_to_go.Broker.Convert.Batch.{of_group-Belong}
use celery_to_go.Broker.Groups.{Groups}
use celery_to_go.Broker.Groups.Consistent.{of_group, of_group-append, queued, Belong, IsConsistent}
use celery_to_go.Broker.Groups.Fifo.{line, get_messages-line}
use celery_to_go.Broker.Groups.Views.{waiting}
use celery_to_go.Broker.Groups.Queued.{
  queued_empty, add_messages_to_group-queued, mark_group_as_processing-queued,
  mark_group_as_available-queued, add_probed_message-queued,
}
use celery_to_go.Worker.Types.{WorkerConfig}
use celery_to_go.Service.{
  System, Step, take, answer, answer_probe, sort, single, single_illegal, probe, probe_busy,
  pass_over, hand, begin, finish, delete, delete_fails, release, Reachable, stay, next,
}
use celery_to_go.Service.Counts.{count, held, one, count-cons}
use celery_to_go.Service.Exclusive.{IsExclusive, Reachable-IsInvariant}

-- What `ReceiveMessages` has returned of the group, and what waits in its queue, is what came in.
abbrev InLine : String → System → Type 0
InLine gid s = line gid s.returned s.groups ≡ of_group gid s.accepted

of_group-own : (gid : String) (ms : List Message) → Belong gid ms → of_group gid ms ≡ ms
unfolding of_group
of_group-own gid [] h = refl
of_group-own gid (m ∷ ms) h = ground (arith, eq_iff m.message_group_id gid, of_group-own gid ms h.1)

of_group-other :
    (gid j : String) (ms : List Message) → Belong j ms → (j == gid) ≡ false → of_group gid ms ≡ []
unfolding of_group
of_group-other gid j [] h other = refl
of_group-other gid j (m ∷ ms) h other = ground (arith, h.0, of_group-other gid j ms h.1 other)

-- Messages of one group that come in, of which `out` goes on and `rest` waits.
extends :
    (gid j : String) (returned accepted out rest : List Message) (groups groups' : Groups)
    → Belong j (out ++ rest)
    → Belong j out
    → queued groups j ≡ []
    → queued groups' gid ≡ (if j == gid then rest else queued groups gid)
    → line gid returned groups ≡ of_group gid accepted
    → line gid (returned ++ out) groups' ≡ of_group gid (accepted ++ (out ++ rest))
extends gid j returned accepted out rest groups groups' own own_out empty after before =
    elim (Bool-cases (j == gid)) [
      | inl same ↦
          let e : j ≡ gid = (eq_iff j gid).0 same in
          let own' = of_group-own gid (out ++ rest) (subst (λ k. Belong k (out ++ rest)) e own) in
          let own_out' = of_group-own gid out (subst (λ k. Belong k out) e own_out) in
          let settled : of_group gid returned ≡ of_group gid accepted =
            sym (append-nil (of_group gid returned))
            ∙ ap (λ q. of_group gid returned ++ q) (sym (ap (queued groups) (sym e) ∙ empty))
            ∙ before in
          rw
            (
              of_group-append gid returned out,
              of_group-append gid accepted (out ++ rest),
              own',
              own_out',
              after,
              same,
              append_assoc,
              settled,
            )
            refl
      | inr other ↦
          rw
            (
              of_group-append gid returned out,
              of_group-append gid accepted (out ++ rest),
              of_group-other gid j out own_out other,
              of_group-other gid j (out ++ rest) own other,
              after,
              other,
              append-nil (of_group gid returned),
              append-nil (of_group gid accepted),
            )
            before
    ]

emptied :
    (groups : Groups) (j gid : String)
    → queued groups j ≡ []
    → queued groups gid ≡ (if j == gid then [] else queued groups gid)
emptied groups j gid empty = elim (Bool-cases (j == gid)) [
  | inl same ↦ rw same (ap (queued groups) (sym ((eq_iff j gid).0 same)) ∙ empty)
  | inr other ↦ rw other refl
]

-- A message that comes in and waits.
waits :
    (gid : String) (s : System) (m : Message) (groups' : Groups)
    → queued groups' gid
      ≡ (if m.message_group_id == gid then queued s.groups gid ++ m ∷ [] else queued s.groups gid)
    → InLine gid s
    → line gid s.returned groups' ≡ of_group gid (s.accepted ++ m ∷ [])
waits gid s m groups' after h = elim (Bool-cases (m.message_group_id == gid)) [
  | inl same ↦
      rw
        (
          of_group-append gid s.accepted (m ∷ []),
          of_group-own gid (m ∷ []) ((eq_iff m.message_group_id gid).0 same, tt),
          after,
          same,
        )
        (sym (append_assoc (of_group gid s.returned) (queued s.groups gid) (m ∷ []))
          ∙ ap (λ l. l ++ m ∷ []) h)
  | inr other ↦
      rw
        (
          of_group-append gid s.accepted (m ∷ []),
          of_group-other gid m.message_group_id (m ∷ []) (refl, tt) other,
          after,
          other,
          append-nil (of_group gid s.accepted),
        )
        h
]

sort_empty :
    (j : String) (s : System) (m : Message) (ms : List Message)
    → of_group j s.delivered ≡ m ∷ ms
    → IsExclusive j s
    → queued s.groups j ≡ []
unfolding count
sort_empty j s m ms e x = queued_empty s.groups j (ground (arith, ap length e))

single_empty :
    (s : System) (m : Message) (ms : List Message)
    → s.delivered ≡ m ∷ ms
    → IsExclusive m.message_group_id s
    → queued s.groups m.message_group_id ≡ []
unfolding one
single_empty s m ms e x =
    let j = m.message_group_id in
    queued_empty s.groups j (ground (arith, ap (count j) e, count-cons j m ms, eq_iff j j))

module _ (decode_task : List ℕ → Reply TaskPayload) (sqs : System → List Message → Type 0)
    (fifo : (s : System) (ms : List Message) (gid : String)
      → sqs s ms
      → (count gid ms ≡ 0) ⊎ ((held gid s ≡ 0) × (waiting gid s.groups ≡ 0))) where
  Step-InLine :
      {s t : System} (gid : String)
      → Step decode_task sqs s t
      → IsConsistent s.groups
      → ((j : String) → IsExclusive j s)
      → InLine gid s
      → InLine gid t
  Step-InLine {s = s} gid (take now order max {messages} {groups'} no_probe no_answer e) c x h =
      let (_, taken) = get_messages-line now order max s.groups groups' messages e c in
      rw (of_group-append gid s.returned messages, append_assoc, taken gid) h
  Step-InLine {s = s} gid (sort now j m ms no_probe e) c x h =
      let own : Belong j (m ∷ ms) = subst (Belong j) e (of_group-Belong j s.delivered) in
      let empty : queued s.groups j ≡ [] = sort_empty j s m ms e (x j) in
      extends gid j s.returned s.accepted (m ∷ []) ms s.groups _ own (own.0, tt) empty
        (add_messages_to_group-queued now s.groups j gid m ms empty) h
  Step-InLine {s = s} gid (single now m ms no_probe e) c x h =
      let j = m.message_group_id in
      let empty : queued s.groups j ≡ [] = single_empty s m ms e (x j) in
      extends gid j s.returned s.accepted (m ∷ []) [] s.groups _ (refl, tt) (refl, tt) empty
        (mark_group_as_processing-queued now s.groups j gid ∙ emptied s.groups j gid empty) h
  Step-InLine {s = s} gid (single_illegal now j) c x h =
      rw (mark_group_as_processing-queued now s.groups j gid) h
  Step-InLine {s = s} gid (probe now m ms e no_answer idle) c x h =
      waits gid s m _ (add_probed_message-queued now s.groups m.message_group_id gid m) h
  Step-InLine {s = s} gid (release now j before after e) c x h =
      rw (mark_group_as_available-queued now s.groups j gid) h
  Step-InLine gid (answer ms no_probe no_answer ok) c x h = h
  Step-InLine gid (answer_probe ms no_probe no_answer ok) c x h = h
  Step-InLine gid (probe_busy m ms e no_answer busy) c x h = h
  Step-InLine gid pass_over c x h = h
  Step-InLine gid (hand now m ms e) c x h = h
  Step-InLine gid (begin now d before after e) c x h = h
  Step-InLine gid (finish now seen r d before after e) c x h = h
  Step-InLine gid (delete d before after e) c x h = h
  Step-InLine gid (delete_fails d before after e) c x h = h

  -- If SQS gives no message of a group of which the program has one, in the broker's queue or
  -- returned and not yet at the end of its acknowledgement's call of SQS, then whatever the broker, the
  -- worker, the pool and the scheduler do, the messages of a group that `ReceiveMessages` has returned,
  -- followed by those in its queue, are those that the broker has accepted into the groups, in the same
  -- order: none that it accepted is lost, doubled or overtaken. A message that a probe finds for a
  -- group that is being processed, and what is passed over with the rest of a batch, is not accepted.
  pub Reachable-InLine :
      (config : WorkerConfig) (s : System) (gid : String)
      → Reachable decode_task sqs config s
      → line gid s.returned s.groups ≡ of_group gid s.accepted
  unfolding of_group queued Dict.get Dict.empty
  Reachable-InLine config s gid stay = refl
  Reachable-InLine config s gid (next {t = s'} r st) =
      let (c, x) = Reachable-IsInvariant decode_task sqs fifo config r in
      Step-InLine gid st c x (Reachable-InLine config s' gid r)
