-- ===== src/Broker/Groups/Busy.antt =====
-- `getMessagesFromInternalQueues` and a group that is being processed.
use celery_to_go.Prelude.{
  ℕ, String, ◌≡◌, refl, sym, ap, subst, ◌∙◌, true, some, List, [], ◌∷◌, ◌++◌, length, length-append,
  arith, eq_iff, ◌==◌, Bool-cases, inl, inr,
}
use celery_to_go.Prelude.Int.{ℤ}
use celery_to_go.Prelude.Dict
use celery_to_go.Prelude.Dict.{get-put}
use celery_to_go.Prelude.Errors.{ok}
use celery_to_go.Broker.Message.{Message}
use celery_to_go.Broker.Groups.{Groups, MessageGroupQueue, get_messages_from_internal_queues}
use celery_to_go.Broker.Groups.Scan.{Takes, get_messages_inv}
use celery_to_go.Broker.Groups.Consistent.{of_group, queued, IsConsistent}
use celery_to_go.Broker.Groups.Fifo.{line, get_messages-line, queued-found}

Takes-keeps_busy :
    (groups groups' : Groups) (gid j : String) (m : Message) (group : MessageGroupQueue)
    → Takes groups gid m groups'
    → group.processing ≡ true
    → Dict.get groups j ≡ some group
    → Dict.get groups' j ≡ some group
Takes-keeps_busy groups groups' gid j m group t busy found =
    rw (t.stored, get-put)
      (elim (Bool-cases (gid == j)) [
        | inl same ↦
            let e : group ≡ t.group = ground (arith, eq_iff gid j, t.found) in
            cc (subst (λ g. g.processing ≡ true) e busy, t.idle)
        | inr other ↦ rw other found
      ])

append-eq_self : {A : Type 0} (xs ys : List A) → xs ++ ys ≡ ys → xs ≡ []
append-eq_self [] ys e = refl
append-eq_self (x ∷ xs) ys e = absurd (omega (arith, ap length e, length-append (x ∷ xs) ys))

-- In consistent groups, `getMessagesFromInternalQueues` does not touch a group that is being
-- processed, and returns none of its messages.
pub get_messages_busy :
    (now : ℕ) (order : List String) (max : ℤ) (groups groups' : Groups) (messages : List Message)
    (gid : String) (group : MessageGroupQueue)
    → get_messages_from_internal_queues now order max groups ≡ ok (messages, groups')
    → IsConsistent groups
    → Dict.get groups gid ≡ some group
    → group.processing ≡ true
    → (Dict.get groups' gid ≡ some group) × (of_group gid messages ≡ [])
get_messages_busy now order max groups groups' messages gid group e c found busy =
    let found' : Dict.get groups' gid ≡ some group =
      get_messages_inv (λ g _. Dict.get g gid ≡ some group)
        (λ g g' j m ms h t. Takes-keeps_busy g g' j gid m group t busy h) now order max groups
        groups' messages e found in
    let kept : line gid messages groups' ≡ queued groups gid =
      (get_messages-line now order max groups groups' messages e c).1 gid in
    (
      found',
      append-eq_self (of_group gid messages) (queued groups' gid) (
          kept ∙ queued-found groups gid group found ∙ sym (queued-found groups' gid group found')),
    )
