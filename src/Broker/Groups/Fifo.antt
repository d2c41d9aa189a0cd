-- ===== src/Broker/Groups/Fifo.antt =====
-- The queues of the message groups keep the order of the messages: what
-- `getMessagesFromInternalQueues` hands out, and what stays.
use celery_to_go.Prelude.{
  ℕ, String, ◌≡◌, refl, ap, subst, ◌∙◌, some, List, [], ◌∷◌, ◌++◌, arith, eq_iff, ◌==◌,
  if◌then◌else◌, Bool-cases, inl, inr,
}
use mathlib.Core.List.{append_assoc}
use celery_to_go.Prelude.Int.{ℤ}
use celery_to_go.Prelude.Dict
use celery_to_go.Prelude.Errors.{ok}
use celery_to_go.Broker.Message.{Message}
use celery_to_go.Broker.Groups.{Groups, MessageGroupQueue, get_messages_from_internal_queues}
use celery_to_go.Broker.Groups.Scan.{Takes, get_messages_inv}
use celery_to_go.Broker.Groups.Consistent.{
  of_group, of_group-append, queued, queued-put, Belong, IsConsistent, put-IsConsistent,
}

pub Takes-IsConsistent :
    (groups groups' : Groups) (gid : String) (m : Message)
    → Takes groups gid m groups'
    → IsConsistent groups
    → IsConsistent groups' × (m.message_group_id ≡ gid)
Takes-IsConsistent groups groups' gid m t c =
    let (id, own) = c.at gid t.group t.found in
    let own' : Belong gid (m ∷ t.rest) = subst (Belong gid) t.first own in
    (rw t.stored (put-IsConsistent groups gid _ c id own'.1), own'.0)

-- The messages of a group that are handed out, then those that wait.
abbrev pub line : String → List Message → Groups → List Message
line gid messages groups = of_group gid messages ++ queued groups gid

pub queued-found :
    (groups : Groups) (gid : String) (group : MessageGroupQueue)
    → Dict.get groups gid ≡ some group
    → queued groups gid ≡ group.tasks
unfolding queued
queued-found groups gid group found = ground arith

of_group-single :
    (gid : String) (m : Message)
    → of_group gid (m ∷ []) ≡ (if m.message_group_id == gid then m ∷ [] else [])
unfolding of_group
of_group-single gid m = refl

Takes-line :
    (groups groups' : Groups) (gid : String) (m : Message) (messages : List Message)
    → Takes groups gid m groups'
    → IsConsistent groups
    → (j : String) → line j (messages ++ m ∷ []) groups' ≡ line j messages groups
Takes-line groups groups' gid m messages t c j =
    let own : m.message_group_id ≡ gid = (Takes-IsConsistent groups groups' gid m t c).1 in
    let after : queued groups' j ≡ (if gid == j then t.rest else queued groups j) =
      rw t.stored (queued-put groups gid j _) in
    let before : queued groups gid ≡ m ∷ t.rest =
      rw (queued-found groups gid t.group t.found) t.first in
    elim (Bool-cases (gid == j)) [
      | inl same ↦
          rw (of_group-append j messages (m ∷ []), append_assoc)
            (ap (◌++◌ (of_group j messages)) (ground (arith, of_group-single j m, eq_iff gid j)))
      | inr other ↦
          rw (of_group-append j messages (m ∷ []), append_assoc)
            (ap (◌++◌ (of_group j messages)) (ground (arith, of_group-single j m, eq_iff gid j)))
    ]

-- When `getMessagesFromInternalQueues` returns and every group stood under its own identifier
-- with messages of its own, then for every group the messages that it returns, followed by those
-- that stay queued, are the messages that were queued before, in the same order; and the groups
-- are still consistent in that way.
pub get_messages-line :
    (now : ℕ) (order : List String) (max : ℤ) (groups groups' : Groups) (messages : List Message)
    → get_messages_from_internal_queues now order max groups ≡ ok (messages, groups')
    → IsConsistent groups
    → IsConsistent groups' × ((gid : String) → line gid messages groups' ≡ queued groups gid)
get_messages-line now order max groups groups' messages e c =
    get_messages_inv (λ g ms. IsConsistent g × ((gid : String) → line gid ms g ≡ queued groups gid))
      (λ g g' gid m ms h t.
        ((Takes-IsConsistent g g' gid m t h.0).0, λ j. Takes-line g g' gid m ms t h.0 j ∙ h.1 j))
      now order max groups groups' messages e (c, λ gid. unfold of_group in refl)
