-- ===== src/Broker/Groups/Queued.antt =====
-- What the critical sections of internal/broker/sqs/fifo.go do to the queue of one group.
use celery_to_go.Prelude.{
  ℕ, suc, ltb, length, String, ◌≡◌, false, none, List, [], ◌∷◌, ◌++◌, arith, eq_iff, ◌==◌,
  if◌then◌else◌, refl, ap, sym, ◌∙◌, inl, inr, Bool-cases, Option-cases,
}
use celery_to_go.Prelude.Dict
use celery_to_go.Broker.Message.{Message}
use celery_to_go.Broker.Groups.{
  Groups, MessageGroupQueue, find_or_new, add_messages_to_group, mark_group_as_processing,
  mark_group_as_available, add_probed_message,
}
use celery_to_go.Broker.Groups.Consistent.{queued, queued-put}
use celery_to_go.Broker.Groups.Fifo.{queued-found}
use celery_to_go.Broker.Groups.Views.{waiting}

pub queued_empty :
    (groups : Groups) (gid : String) → waiting gid groups ≡ 0 → queued groups gid ≡ []
unfolding waiting
queued_empty groups gid h = ground arith

queued-missing :
    (groups : Groups) (gid : String) → Dict.get groups gid ≡ none → queued groups gid ≡ []
unfolding queued
queued-missing groups gid missing = ground arith

find_or_new-tasks :
    (groups : Groups) (gid : String) → (find_or_new groups gid).tasks ≡ queued groups gid
unfolding queued
find_or_new-tasks groups gid = ground arith

queued-put_tasks :
    (groups : Groups) (gid j : String) (group : MessageGroupQueue) (tasks : List Message)
    → group.tasks ≡ tasks
    → queued (Dict.put groups gid group) j ≡ (if gid == j then tasks else queued groups j)
queued-put_tasks groups gid j group tasks e = rw (queued-put, e) refl

queued-put_same :
    (groups : Groups) (gid j : String) (group : MessageGroupQueue)
    → group.tasks ≡ queued groups gid
    → queued (Dict.put groups gid group) j ≡ queued groups j
queued-put_same groups gid j group e = elim (Bool-cases (gid == j)) [
  | inl same ↦ rw (queued-put, same) (e ∙ ap (queued groups) ((eq_iff gid j).0 same))
  | inr other ↦ rw (queued-put, other) refl
]

appended :
    {A : Type 0} {old : List A}
    → old ≡ []
    → (ms : List A) → (if ltb 1 (suc (length ms)) then old ++ ms else old) ≡ ms
appended e [] = ground arith
appended e (m ∷ ms) = ground arith

pub add_messages_to_group-queued :
    (now : ℕ) (groups : Groups) (gid j : String) (m : Message) (ms : List Message)
    → queued groups gid ≡ []
    → queued (add_messages_to_group now groups gid (m ∷ ms)) j
      ≡ (if gid == j then ms else queued groups j)
unfolding add_messages_to_group
add_messages_to_group-queued now groups gid j m ms h =
    let here : (find_or_new groups gid).tasks ≡ [] = find_or_new-tasks groups gid ∙ h in
    queued-put_tasks groups gid j _ ms (appended here ms)

pub mark_group_as_processing-queued :
    (now : ℕ) (groups : Groups) (gid j : String)
    → queued (mark_group_as_processing now groups gid) j ≡ queued groups j
unfolding mark_group_as_processing
mark_group_as_processing-queued now groups gid j =
    queued-put_same groups gid j _ (find_or_new-tasks groups gid)

pub mark_group_as_available-queued :
    (now : ℕ) (groups : Groups) (gid j : String)
    → queued (mark_group_as_available now groups gid) j ≡ queued groups j
unfolding mark_group_as_available
mark_group_as_available-queued now groups gid j = elim (Option-cases (Dict.get groups gid)) [
  | inl missing ↦ rw (missing, mark_group_as_available) refl
  | inr (group, found) ↦
      rw (found, mark_group_as_available)
        (queued-put_same groups gid j _ (sym (queued-found groups gid group found)))
]

pub add_probed_message-queued :
    (now : ℕ) (groups : Groups) (gid j : String) (msg : Message)
    → queued (add_probed_message now groups gid msg) j
      ≡ (if gid == j then queued groups j ++ msg ∷ [] else queued groups j)
unfolding add_probed_message
add_probed_message-queued now groups gid j msg = elim (Option-cases (Dict.get groups gid)) [
  | inl missing ↦
      rw (missing, add_probed_message)
        (queued-put_tasks groups gid j
            (record { group_id = gid; processing = false; last_access = now; tasks = msg ∷ [] })
            (queued groups gid ++ msg ∷ [])
            (sym (ap (λ ts. ts ++ msg ∷ []) (queued-missing groups gid missing)))
          ∙ moved)
  | inr (group, found) ↦
      rw (found, add_probed_message)
        (queued-put_tasks groups gid j (record group { tasks = group.tasks ++ msg ∷ [] })
            (queued groups gid ++ msg ∷ [])
            (sym (ap (λ ts. ts ++ msg ∷ []) (queued-found groups gid group found)))
          ∙ moved)
]
  where
    moved :
        (if gid == j then queued groups gid ++ msg ∷ [] else queued groups j)
        ≡ (if gid == j then queued groups j ++ msg ∷ [] else queued groups j)
    moved = elim (Bool-cases (gid == j)) [
      | inl same ↦ rw same (ap (λ k. queued groups k ++ msg ∷ []) ((eq_iff gid j).0 same))
      | inr other ↦ rw other refl
    ]
