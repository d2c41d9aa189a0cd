-- ===== src/Broker/Groups/Views.antt =====
-- What the critical sections of internal/broker/sqs/fifo.go do to one group: to the number of messages
-- in its queue, and to its mark.
use celery_to_go.Prelude.{
  ℕ, ◌+◌, suc, String, ◌≡◌, ◌⊎◌, Bool, true, false, none, some, List, [], ◌∷◌, ◌++◌, length, arith,
  eq_iff, ◌==◌, if◌then◌else◌, refl, inl, inr, Bool-cases, Option-cases, sym, ap, length-append,
  ltb, ◌∙◌,
}
use celery_to_go.Prelude.Int.{ℤ}
use celery_to_go.Prelude.Dict
use celery_to_go.Prelude.Dict.{get-put}
use celery_to_go.Prelude.Errors.{ok}
use celery_to_go.Broker.Message.{Message}
use celery_to_go.Broker.Groups.{
  Groups, MessageGroupQueue, find_or_new, get_messages_from_internal_queues, add_messages_to_group,
  mark_group_as_processing, mark_group_as_available, is_processing, add_probed_message,
}
use celery_to_go.Broker.Groups.Scan.{Takes, get_messages_inv}
use celery_to_go.Broker.Groups.Consistent.{
  IsConsistent, of_group, of_group-append, queued, queued-put,
}
use celery_to_go.Broker.Groups.Fifo.{Takes-IsConsistent}

-- The messages in the queue of a group.
unfoldable pub waiting : String → Groups → ℕ
waiting gid groups = length (queued groups gid)

pub is_processing-put :
    (groups : Groups) (gid j : String) (group : MessageGroupQueue)
    → is_processing (Dict.put groups gid group) j
      ≡ (if gid == j then group.processing else is_processing groups j)
unfolding is_processing
is_processing-put groups gid j group = ground (arith, get-put groups gid j group)

pub waiting-put :
    (groups : Groups) (gid j : String) (group : MessageGroupQueue)
    → waiting j (Dict.put groups gid group)
      ≡ (if gid == j then length group.tasks else waiting j groups)
unfolding waiting
waiting-put groups gid j group = ground (arith, queued-put groups gid j group)

-- A group that is stored, by what its two views are then.
put_view :
    (groups : Groups) (gid j : String) (group : MessageGroupQueue) (n : ℕ) (b : Bool)
    → length group.tasks ≡ n
    → group.processing ≡ b
    → let groups' = Dict.put groups gid group in
      (waiting j groups' ≡ (if gid == j then n else waiting j groups))
      × (is_processing groups' j ≡ (if gid == j then b else is_processing groups j))
put_view groups gid j group n b h k = (rw (waiting-put, h) refl, rw (is_processing-put, k) refl)

-- The group that an operation finds or makes, as the two views show it.
found_view :
    (groups : Groups) (gid : String)
    → ((find_or_new groups gid).processing ≡ is_processing groups gid)
      × (length (find_or_new groups gid).tasks ≡ waiting gid groups)
unfolding is_processing waiting queued
found_view groups gid = ground arith

some_view :
    (groups : Groups) (gid : String) (group : MessageGroupQueue)
    → Dict.get groups gid ≡ some group
    → (is_processing groups gid ≡ group.processing) × (waiting gid groups ≡ length group.tasks)
unfolding is_processing waiting queued
some_view groups gid group found = ground arith

none_view :
    (groups : Groups) (gid : String)
    → Dict.get groups gid ≡ none
    → (is_processing groups gid ≡ false) × (waiting gid groups ≡ 0)
unfolding is_processing waiting queued
none_view groups gid missing = ground arith

at_key {ℓ} :
    {A : Type ℓ} (f g : String → A) (gid j : String)
    → (if gid == j then f gid else g j) ≡ (if gid == j then f j else g j)
at_key f g gid j = elim (Bool-cases (gid == j)) [
  | inl same ↦ rw same (ap f ((eq_iff gid j).0 same))
  | inr other ↦ rw other refl
]

at_any_key {ℓ} :
    {A : Type ℓ} (f : String → A) (gid j : String) → (if gid == j then f gid else f j) ≡ f j
at_any_key f gid j = elim (Bool-cases (gid == j)) [
  | inl same ↦ rw same (ap f ((eq_iff gid j).0 same))
  | inr other ↦ rw other refl
]

-- A batch for a group whose queue is empty: all but its first message wait, and it is marked.
pub add_messages_to_group-view :
    (now : ℕ) (groups : Groups) (gid j : String) (m : Message) (ms : List Message)
    → waiting gid groups ≡ 0
    → let groups' = add_messages_to_group now groups gid (m ∷ ms) in
      (waiting j groups' ≡ (if gid == j then length ms else waiting j groups))
      × (is_processing groups' j ≡ (if gid == j then true else is_processing groups j))
unfolding add_messages_to_group
add_messages_to_group-view now groups gid j m ms h =
    let (p, q) = found_view groups gid in
    put_view groups gid j _ (length ms) true
      (ground (arith, length-append (find_or_new groups gid).tasks ms)) (ground arith)

-- A batch for another group.
pub add_messages_to_group-other :
    (now : ℕ) (groups : Groups) (gid j : String) (ms : List Message)
    → (gid == j) ≡ false
    → let groups' = add_messages_to_group now groups gid ms in
      (queued groups' j ≡ queued groups j) × (is_processing groups' j ≡ is_processing groups j)
unfolding add_messages_to_group
add_messages_to_group-other now groups gid j ms other =
    (rw (queued-put, other) refl, rw (is_processing-put, other) refl)

pub mark_group_as_available-other :
    (now : ℕ) (groups : Groups) (gid j : String)
    → (gid == j) ≡ false
    → is_processing (mark_group_as_available now groups gid) j ≡ is_processing groups j
unfolding mark_group_as_available
mark_group_as_available-other now groups gid j other = elim (Option-cases (Dict.get groups gid)) [
  | inl missing ↦ rw (missing, mark_group_as_available) refl
  | inr (group, found) ↦ rw (found, mark_group_as_available, is_processing-put, other) refl
]

pub mark_group_as_processing-view :
    (now : ℕ) (groups : Groups) (gid j : String)
    → let groups' = mark_group_as_processing now groups gid in
      (waiting j groups' ≡ waiting j groups)
      × (is_processing groups' j ≡ (if gid == j then true else is_processing groups j))
unfolding mark_group_as_processing
mark_group_as_processing-view now groups gid j =
    let (p, q) = found_view groups gid in
    let (w, b) = put_view groups gid j _ (waiting gid groups) true q refl in
    (w ∙ at_any_key (λ k. waiting k groups) gid j, b)

-- An acknowledged group keeps its queue, and keeps its mark while messages wait.
pub mark_group_as_available-view :
    (now : ℕ) (groups : Groups) (gid j : String)
    → let groups' = mark_group_as_available now groups gid in
      (waiting j groups' ≡ waiting j groups)
      × ((waiting j groups ≡ 0) ⊎ (is_processing groups' j ≡ is_processing groups j))
unfolding mark_group_as_available
mark_group_as_available-view now groups gid j = elim (Option-cases (Dict.get groups gid)) [
  | inl missing ↦ rw (missing, mark_group_as_available) (refl, inr refl)
  | inr (group, found) ↦
      let (p, q) = some_view groups gid group found in
      let (w, b) =
        put_view groups gid j
          (record group {
            processing = if ltb 0 (length group.tasks) then group.processing else false;
            last_access = now;
          })
          (waiting gid groups) _ (sym q) refl in
      rw (found, mark_group_as_available)
        (w ∙ at_any_key (λ k. waiting k groups) gid j, ground (arith, eq_iff gid j))
]

pub add_probed_message-view :
    (now : ℕ) (groups : Groups) (gid j : String) (msg : Message)
    → let groups' = add_probed_message now groups gid msg in
      (waiting j groups' ≡ (if gid == j then suc (waiting j groups) else waiting j groups))
      × (is_processing groups' j ≡ is_processing groups j)
unfolding add_probed_message
add_probed_message-view now groups gid j msg = elim (Option-cases (Dict.get groups gid)) [
  | inl missing ↦
      let (p, q) = none_view groups gid missing in
      let (w, b) =
        put_view groups gid j
          (record { group_id = gid; processing = false; last_access = now; tasks = msg ∷ [] })
          (suc (waiting gid groups)) (is_processing groups gid) (omega arith) (sym p) in
      rw (missing, add_probed_message)
        (
          w ∙ at_key (λ k. suc (waiting k groups)) (λ k. waiting k groups) gid j,
          b ∙ at_any_key (λ k. is_processing groups k) gid j,
        )
  | inr (group, found) ↦
      let (p, q) = some_view groups gid group found in
      let (w, b) =
        put_view groups gid j (record group { tasks = group.tasks ++ msg ∷ [] })
          (suc (waiting gid groups)) (is_processing groups gid)
          (omega (arith, length-append group.tasks (msg ∷ []))) (sym p) in
      rw (found, add_probed_message)
        (
          w ∙ at_key (λ k. suc (waiting k groups)) (λ k. waiting k groups) gid j,
          b ∙ at_any_key (λ k. is_processing groups k) gid j,
        )
]

-- What a scan of the queues does to a group, of which it takes `n` messages: nothing, or it takes
-- one, which it does if the group is not marked, and marks it.
abbrev pub Taken : String → Groups → Groups → ℕ → Type 0
Taken gid groups groups' n =
    ((n ≡ 0)
      × (waiting gid groups' ≡ waiting gid groups)
      × (is_processing groups' gid ≡ is_processing groups gid))
    ⊎ ((n ≡ 1)
        × (waiting gid groups ≡ suc (waiting gid groups'))
        × (is_processing groups gid ≡ false)
        × (is_processing groups' gid ≡ true))

Takes-Taken :
    (groups groups' : Groups) (gid j : String) (m : Message)
    → Takes groups gid m groups'
    → Taken j groups groups' (if gid == j then 1 else 0)
Takes-Taken groups groups' gid j m t =
    let (p, q) = some_view groups gid t.group t.found in
    let (w, b) =
      put_view groups gid j
        (record t.group { processing = true; last_access = t.now; tasks = t.rest }) (length t.rest)
        true refl refl in
    elim (Bool-cases (gid == j)) [
      | inl same ↦
          let e : gid ≡ j = (eq_iff gid j).0 same in
          let size = ap length t.first in
          rw (same, t.stored)
            (inr (
              refl,
              sym (ap (λ k. waiting k groups) e) ∙ q ∙ size ∙ ap suc (sym (w ∙ rw same refl)),
              sym (ap (is_processing groups) e) ∙ p ∙ t.idle,
              b ∙ rw same refl,
            ))
      | inr other ↦ rw (other, t.stored) (inl (refl, w ∙ rw other refl, b ∙ rw other refl))
    ]

Taken-then :
    (gid : String) (groups groups' groups'' : Groups) (n k : ℕ)
    → Taken gid groups groups' n
    → Taken gid groups' groups'' k
    → Taken gid groups groups'' (n + k)
Taken-then gid groups groups' groups'' n k a b = ground arith

of_one :
    (gid j : String) (m : Message)
    → m.message_group_id ≡ gid
    → length (of_group j (m ∷ [])) ≡ (if gid == j then 1 else 0)
unfolding of_group
of_one gid j m own = ground arith

-- A call of `getMessagesFromInternalQueues` on consistent groups takes at most one message of a
-- group, and one only if the group is not marked, which it then is.
pub get_messages-Taken :
    (now : ℕ) (order : List String) (max : ℤ) (groups groups' : Groups) (messages : List Message)
    (gid : String)
    → get_messages_from_internal_queues now order max groups ≡ ok (messages, groups')
    → IsConsistent groups
    → Taken gid groups groups' (length (of_group gid messages))
get_messages-Taken now order max groups groups' messages gid e c =
    (get_messages_inv (λ g ms. IsConsistent g × Taken gid groups g (length (of_group gid ms)))
      (λ g g' j m ms h t.
        let (c', own) = Takes-IsConsistent g g' j m t h.0 in
        (
          c',
          rw (of_group-append gid ms (m ∷ []), length-append, of_one j gid m own)
              (Taken-then gid groups g g' _ _ h.1 (Takes-Taken g g' j gid m t)),
        ))
      now order max groups groups' messages e (c, unfold of_group in inl (refl, refl, refl))).1
