-- ===== src/Broker/Groups/Stuck.antt =====
-- The critical sections of the broker, in any order that the goroutines give, and the messages that
-- wait in the queue of a group that is being processed.
use celery_to_go.Prelude.{
  ℕ, String, ◌≡◌, ◌≢◌, refl, ◌∙◌, true, none, some, List, [], ◌∷◌, ◌++◌, length, arith, eq_iff,
  eq_refl, ◌==◌, Bool-cases, Option-cases, tail, inl, inr, ltb,
}
use mathlib.Core.List.{append-nil, append_assoc}
use celery_to_go.Prelude.Int.{ℤ}
use celery_to_go.Prelude.Dict
use celery_to_go.Prelude.Dict.{get-put}
use celery_to_go.Prelude.Errors.{ok}
use celery_to_go.Broker.Message.{Message}
use celery_to_go.Broker.Groups.{
  Groups, MessageGroupQueue, find_or_new, get_messages_from_internal_queues, add_messages_to_group,
  mark_group_as_processing, mark_group_as_available, add_probed_message,
}
use celery_to_go.Broker.Groups.Consistent.{
  of_group, of_group-append, queued, Belong, IsConsistent, add_messages_to_group-IsConsistent,
  mark_group_as_processing-IsConsistent, mark_group_as_available-IsConsistent,
  add_probed_message-IsConsistent,
}
use celery_to_go.Broker.Groups.Fifo.{get_messages-line, queued-found}
use celery_to_go.Broker.Groups.Busy.{get_messages_busy}

-- One critical section, with the messages that it takes out of the queues.
pub data Step (groups : Groups) : List Message → Groups → Type 0 where
  take :
      (now : ℕ) (order : List String) (max : ℤ) {messages : List Message} {groups' : Groups}
      → get_messages_from_internal_queues now order max groups ≡ ok (messages, groups')
      → Step groups messages groups'
  fetch :
      (now : ℕ) (gid : String) (messages : List Message)
      → Belong gid messages
      → Step groups [] (add_messages_to_group now groups gid messages)
  mark : (now : ℕ) (gid : String) → Step groups [] (mark_group_as_processing now groups gid)
  acknowledge : (now : ℕ) (gid : String) → Step groups [] (mark_group_as_available now groups gid)
  probe :
      (now : ℕ) (gid : String) (msg : Message)
      → msg.message_group_id ≡ gid
      → Step groups [] (add_probed_message now groups gid msg)

-- Any number of them, with all that they take out.
pub data Run (groups : Groups) : List Message → Groups → Type 0 where
  here : Run groups [] groups
  next :
      {taken more : List Message} {groups' groups'' : Groups}
      → Run groups taken groups'
      → Step groups' more groups''
      → Run groups (taken ++ more) groups''

Step-IsConsistent :
    {groups groups' : Groups} {messages : List Message}
    → Step groups messages groups'
    → IsConsistent groups
    → IsConsistent groups'
Step-IsConsistent (take now order max e) c = (get_messages-line now order max _ _ _ e c).0
Step-IsConsistent (fetch now gid ms own) c = add_messages_to_group-IsConsistent now _ gid ms c own
Step-IsConsistent (mark now gid) c = mark_group_as_processing-IsConsistent now _ gid c
Step-IsConsistent (acknowledge now gid) c = mark_group_as_available-IsConsistent now _ gid c
Step-IsConsistent (probe now gid msg own) c = add_probed_message-IsConsistent now _ gid msg c own

-- Every interleaving of the critical sections keeps consistent groups consistent: each group
-- under its own identifier, with messages of its own in its queue.
pub Run-IsConsistent :
    {groups groups' : Groups} {messages : List Message}
    → Run groups messages groups'
    → IsConsistent groups
    → IsConsistent groups'
Run-IsConsistent here c = c
Run-IsConsistent (next r s) c = Step-IsConsistent s (Run-IsConsistent r c)

-- The group is being processed while its queue begins with `m` and `ms`.
pub record IsStuck (gid : String) (m : Message) (ms : List Message) (groups : Groups) : Type 0 where
  pub group : MessageGroupQueue
  pub rest : List Message
  pub found : Dict.get groups gid ≡ some group
  pub busy : group.processing ≡ true
  pub waiting : group.tasks ≡ m ∷ (ms ++ rest)

-- Whatever an operation appends to the queue, the head of the queue stays.
grown :
    (m : Message) (ms tasks rest more : List Message)
    → tasks ≡ m ∷ (ms ++ rest)
    → (rest' : List Message) × (tasks ++ more ≡ m ∷ (ms ++ rest'))
grown m ms tasks rest more e = (rest ++ more, rw (e, append_assoc))

same_group :
    (groups : Groups) (gid j : String) (a b : MessageGroupQueue)
    → Dict.get groups gid ≡ some a
    → Dict.get groups j ≡ some b
    → j ≡ gid
    → b ≡ a
same_group groups gid j a b fa fb e = let fa' : Dict.get groups j ≡ some a = rw e fa in ground arith

module _ {gid : String} {m : Message} {ms : List Message} where
  put-IsStuck :
      (groups : Groups) (j : String) (group : MessageGroupQueue)
      → IsStuck gid m ms groups
      → (j ≡ gid
          → (group.processing ≡ true) × ((rest : List Message) × (group.tasks ≡ m ∷ (ms ++ rest))))
      → IsStuck gid m ms (Dict.put groups j group)
  put-IsStuck groups j group s same = elim (Bool-cases (j == gid)) [
    | inl hit ↦
        let (busy, grown) = same ((eq_iff j gid).0 hit) in
        let (rest, waiting) = grown in
        record {
          group = group;
          rest = rest;
          found = rw (get-put, hit);
          busy = busy;
          waiting = waiting;
        }
    | inr miss ↦ record {
      group = s.group;
      rest = s.rest;
      found = rw (get-put, miss) s.found;
      busy = s.busy;
      waiting = s.waiting;
    }
  ]

  found_stuck :
      (groups : Groups) (j : String) (s : IsStuck gid m ms groups)
      → j ≡ gid
      → find_or_new groups j ≡ s.group
  found_stuck groups j s e = rw (e, find_or_new, s.found)

  lost :
      (groups : Groups) (j : String) (s : IsStuck gid m ms groups)
      → j ≡ gid
      → Dict.get groups j ≢ none
  lost groups j s e missing = cc (rw e at missing, s.found)

  Step-IsStuck :
      {groups groups' : Groups} {taken : List Message}
      → Step groups taken groups'
      → IsConsistent groups
      → IsStuck gid m ms groups
      → IsStuck gid m ms groups' × (of_group gid taken ≡ [])
  unfolding mark_group_as_available add_probed_message
  Step-IsStuck (take now order max e) c s =
      let (found, skipped) = get_messages_busy now order max _ _ _ gid s.group e c s.found s.busy in
      (
        record {
          group = s.group;
          rest = s.rest;
          found = found;
          busy = s.busy;
          waiting = s.waiting;
        },
        skipped,
      )
  Step-IsStuck {groups = groups} (fetch now j messages own) c s = (
    unfold add_messages_to_group in
        put-IsStuck groups j _ s λ e. rw (found_stuck groups j s e) (
          ground arith,
          elim (Bool-cases (ltb 1 (length messages))) [
            | inl more ↦ rw more (grown m ms s.group.tasks s.rest (tail messages) s.waiting)
            | inr one ↦ rw one (s.rest, s.waiting)
          ],
        ),
    unfold of_group in refl,
  )
  Step-IsStuck {groups = groups} (mark now j) c s = (
    unfold mark_group_as_processing in
        put-IsStuck groups j _ s λ e. (refl, (s.rest, rw (found_stuck groups j s e) s.waiting)),
    unfold of_group in refl,
  )
  Step-IsStuck {groups = groups} (acknowledge now j) c s = (
    elim (Option-cases (Dict.get groups j)) [
      | inl missing ↦ rw (missing, mark_group_as_available) s
      | inr (group, found) ↦
          rw (found, mark_group_as_available)
            (put-IsStuck groups j _ s λ e.
              rw (same_group groups gid j s.group group s.found found e, s.waiting)
                (ground arith, (s.rest, refl)))
    ],
    unfold of_group in refl,
  )
  Step-IsStuck {groups = groups} (probe now j msg own) c s = (
    elim (Option-cases (Dict.get groups j)) [
      | inl missing ↦
          rw (missing, add_probed_message)
            (put-IsStuck groups j _ s λ e. absurd (lost groups j s e missing))
      | inr (group, found) ↦
          rw (found, add_probed_message)
            (put-IsStuck groups j _ s λ e.
              rw (same_group groups gid j s.group group s.found found e)
                (s.busy, grown m ms s.group.tasks s.rest (msg ∷ []) s.waiting))
    ],
    unfold of_group in refl,
  )

  -- In consistent groups, once a group is being processed while messages wait in its queue, it
  -- stays so in every interleaving of the critical sections, acknowledgements included, and
  -- none of its messages is taken out of the queue.
  pub Run-IsStuck :
      {groups groups' : Groups} {taken : List Message}
      → Run groups taken groups'
      → IsConsistent groups
      → IsStuck gid m ms groups
      → IsStuck gid m ms groups' × (of_group gid taken ≡ [])
  Run-IsStuck here c s = (s, unfold of_group in refl)
  Run-IsStuck (next {taken = taken} {more = more} r step) c s =
      let (s', before) = Run-IsStuck r c s in
      let (s'', now) = Step-IsStuck step (Run-IsConsistent r c) s' in
      (s'', rw (of_group-append gid taken more, before) now)

-- The queue of a group that an operation finds or makes.
find_or_new-queued :
    (groups : Groups) (gid : String) → (find_or_new groups gid).tasks ≡ queued groups gid
unfolding queued
find_or_new-queued groups gid = ground arith

batch-IsStuck :
    (now : ℕ) (gid : String) (groups : Groups) (first second : Message) (others : List Message)
    → queued groups gid ≡ []
    → IsStuck gid second others (add_messages_to_group now groups gid (first ∷ second ∷ others))
unfolding add_messages_to_group
batch-IsStuck now gid groups first second others none_queued =
    let empty_queue = find_or_new-queued groups gid ∙ none_queued in
    record {
      group = record (find_or_new groups gid) {
        processing = true;
        last_access = now;
        tasks = second ∷ others;
      };
      rest = [];
      found = rw (get-put, eq_refl) (ground (arith, empty_queue));
      busy = refl;
      waiting = rw append-nil;
    }

-- In consistent groups, when a batch brings two or more messages of a group whose queue is empty,
-- all of them but the first stay at the head of the queue in every later interleaving of the
-- critical sections, acknowledgements included, and no message of the group is taken out of the
-- queue.
pub batch_starves :
    (now : ℕ) (gid : String) (groups groups' : Groups) (first second : Message)
    (others taken : List Message)
    → IsConsistent groups
    → queued groups gid ≡ []
    → Belong gid (first ∷ second ∷ others)
    → Run (add_messages_to_group now groups gid (first ∷ second ∷ others)) taken groups'
    → ((rest : List Message) × (queued groups' gid ≡ second ∷ (others ++ rest)))
      × (of_group gid taken ≡ [])
batch_starves now gid groups groups' first second others taken c none_queued own run =
    let start : IsStuck gid second others
        (add_messages_to_group now groups gid (first ∷ second ∷ others)) =
      batch-IsStuck now gid groups first second others none_queued in
    let (s, skipped) =
      Run-IsStuck run (add_messages_to_group-IsConsistent now groups gid _ c own) start in
    ((s.rest, queued-found groups' gid s.group s.found ∙ s.waiting), skipped)
