-- ===== src/Broker/Groups/Consistent.antt =====
-- A view of the groups: the queue of each, and what every critical section keeps.
use celery_to_go.Prelude.{
  ℕ, String, ◌≡◌, refl, subst, ◌∙◌, none, some, List, [], ◌∷◌, ◌++◌, All, All-append, length, arith,
  eq_iff, ◌==◌, ltb, if◌then◌else◌, Bool-cases, Option-cases, tail, inl, inr,
}
use celery_to_go.Prelude.Dict
use celery_to_go.Prelude.Dict.{get-put}
use celery_to_go.Broker.Message.{Message}
use celery_to_go.Broker.Groups.{
  Groups, MessageGroupQueue, find_or_new, add_messages_to_group, mark_group_as_processing,
  mark_group_as_available, add_probed_message,
}

-- The messages of one group, in their order.
unfoldable pub of_group : String → List Message → List Message
of_group gid [] = []
of_group gid (m ∷ ms) =
    let rest = of_group gid ms in if m.message_group_id == gid then m ∷ rest else rest

pub of_group-append :
    (gid : String) (xs ys : List Message)
    → of_group gid (xs ++ ys) ≡ of_group gid xs ++ of_group gid ys
unfolding of_group
of_group-append gid [] ys = refl
of_group-append gid (x ∷ xs) ys = ground (arith, of_group-append gid xs ys)

-- The messages that wait in a group's queue.
unfoldable pub queued : Groups → String → List Message
queued groups gid = elim (Dict.get groups gid) [ none ↦ [] | some group ↦ group.tasks ]

abbrev pub Belong : String → List Message → Type 0
Belong gid = All (λ m. m.message_group_id ≡ gid)

-- A group stands under its own identifier and queues messages of its own.
pub record IsConsistent (groups : Groups) : Type 0 where
  pub at :
      (gid : String) (group : MessageGroupQueue)
      → Dict.get groups gid ≡ some group
      → (group.group_id ≡ gid) × Belong gid group.tasks

pub queued-put :
    (groups : Groups) (gid j : String) (group : MessageGroupQueue)
    → queued (Dict.put groups gid group) j ≡ (if gid == j then group.tasks else queued groups j)
unfolding queued
queued-put groups gid j group = ground (arith, get-put groups gid j group)

pub put-IsConsistent :
    (groups : Groups) (gid : String) (group : MessageGroupQueue)
    → IsConsistent groups
    → group.group_id ≡ gid
    → Belong gid group.tasks
    → IsConsistent (Dict.put groups gid group)
put-IsConsistent groups gid group c id own = record {
  at = λ j group' found. elim (Bool-cases (gid == j)) [
    | inl same ↦
        let e : group ≡ group' = ground (arith, get-put groups gid j group) in
        let k : gid ≡ j = (eq_iff gid j).0 same in
        subst (λ g. (g.group_id ≡ j) × Belong j g.tasks) e
          (id ∙ k, subst (λ i. Belong i group.tasks) k own)
    | inr other ↦ c.at j group' (ground (arith, get-put groups gid j group))
  ];
}

-- The group that an operation finds or makes fits its identifier.
pub find_or_new-fits :
    (groups : Groups) (gid : String)
    → IsConsistent groups
    → ((find_or_new groups gid).group_id ≡ gid) × Belong gid (find_or_new groups gid).tasks
find_or_new-fits groups gid c = elim (Option-cases (Dict.get groups gid)) [
  | inl missing ↦ rw (missing, find_or_new) (refl, tt)
  | inr (group, found) ↦ rw (found, find_or_new) (c.at gid group found)
]

tail-Belong : (gid : String) (ms : List Message) → Belong gid ms → Belong gid (tail ms)
tail-Belong gid [] h = tt
tail-Belong gid (m ∷ ms) h = h.1

pub add_messages_to_group-IsConsistent :
    (now : ℕ) (groups : Groups) (gid : String) (messages : List Message)
    → IsConsistent groups
    → Belong gid messages
    → IsConsistent (add_messages_to_group now groups gid messages)
unfolding add_messages_to_group
add_messages_to_group-IsConsistent now groups gid messages c own =
    let (id, old) = find_or_new-fits groups gid c in
    put-IsConsistent groups gid _ c id (elim (Bool-cases (ltb 1 (length messages))) [
      | inl more ↦ rw more (All-append _ _ (tail messages) old (tail-Belong gid messages own))
      | inr none_left ↦ rw none_left old
    ])

pub mark_group_as_processing-IsConsistent :
    (now : ℕ) (groups : Groups) (gid : String)
    → IsConsistent groups
    → IsConsistent (mark_group_as_processing now groups gid)
unfolding mark_group_as_processing
mark_group_as_processing-IsConsistent now groups gid c =
    let (id, old) = find_or_new-fits groups gid c in put-IsConsistent groups gid _ c id old

pub mark_group_as_available-IsConsistent :
    (now : ℕ) (groups : Groups) (gid : String)
    → IsConsistent groups
    → IsConsistent (mark_group_as_available now groups gid)
unfolding mark_group_as_available
mark_group_as_available-IsConsistent now groups gid c = elim (Option-cases (Dict.get groups gid)) [
  | inl missing ↦ rw (missing, mark_group_as_available) c
  | inr (group, found) ↦
      let (id, own) = c.at gid group found in
      rw (found, mark_group_as_available) (put-IsConsistent groups gid _ c id own)
]

pub add_probed_message-IsConsistent :
    (now : ℕ) (groups : Groups) (gid : String) (msg : Message)
    → IsConsistent groups
    → msg.message_group_id ≡ gid
    → IsConsistent (add_probed_message now groups gid msg)
unfolding add_probed_message
add_probed_message-IsConsistent now groups gid msg c own =
    elim (Option-cases (Dict.get groups gid)) [
      | inl missing ↦
          rw (missing, add_probed_message) (put-IsConsistent groups gid _ c refl (own, tt))
      | inr (group, found) ↦
          let (id, old) = c.at gid group found in
          rw (found, add_probed_message)
            (put-IsConsistent groups gid _ c id (All-append _ group.tasks (msg ∷ []) old (own, tt)))
    ]
