-- ===== src/Broker/Groups/Scan.antt =====
-- The loop of `getMessagesFromInternalQueues`: what one round does, and the rule for invariants.
use celery_to_go.Prelude.{
  ◌≢◌, ℕ, String, ◌≡◌, subst, inl, inr, true, false, some, List, [], ◌∷◌, ◌++◌, length, arith,
  Bool-cases, Option-cases,
}
use celery_to_go.Prelude.Int.{◌≤ℤ◌, ℤ, pos, leb_ℤ, ltb_ℤ}
use celery_to_go.Prelude.Dict
use celery_to_go.Prelude.Dict.{get-put}
use celery_to_go.Prelude.Errors.{panic, ok}
use celery_to_go.Broker.Message.{Message}
use celery_to_go.Broker.Groups.{
  Groups, MessageGroupQueue, next_message, take_first, scan_groups,
  get_messages_from_internal_queues,
}

-- What one round of the loop does, when it takes a message.
pub record Takes (groups : Groups) (gid : String) (m : Message) (groups' : Groups) : Type 0 where
  pub group : MessageGroupQueue
  pub rest : List Message
  pub now : ℕ
  pub found : Dict.get groups gid ≡ some group
  pub idle : group.processing ≡ false
  pub first : group.tasks ≡ m ∷ rest
  pub stored :
      groups'
      ≡ Dict.put groups gid (record group { processing = true; last_access = now; tasks = rest })

take_first-eq :
    (now : ℕ) (group group' : MessageGroupQueue) (tasks : List Message) (m : Message)
    → take_first now group tasks ≡ some (m, group')
    → (rest : List Message) × (group.processing ≡ false)
      × (tasks ≡ m ∷ rest)
      × (group' ≡ record group { processing = true; last_access = now; tasks = rest })
unfolding take_first
take_first-eq now group group' [] m e = cc
take_first-eq now group group' (x ∷ rest) m e = (rest, ground arith, ground arith, ground arith)

pub next_message-Takes :
    (now : ℕ) (groups groups' : Groups) (gid : String) (m : Message)
    → next_message now groups gid ≡ some (m, groups')
    → Takes groups gid m groups'
unfolding next_message
next_message-Takes now groups groups' gid m e = elim (Option-cases (Dict.get groups gid)) [
  | inl missing ↦ ground arith
  | inr (group, found) ↦ elim (Option-cases (take_first now group group.tasks)) [
    | inl skipped ↦ ground arith
    | inr ((x, group'), taken) ↦
        let (rest, idle, first, eq) = take_first-eq now group group' group.tasks x taken in
        record {
          group = group;
          rest = rest;
          now = now;
          found = found;
          idle = idle;
          first = ground arith;
          stored = ground arith;
        }
  ]
]

module _ {ℓ} (P : Groups → List Message → Type ℓ)
    (keep : (groups groups' : Groups) (gid : String) (m : Message) (messages : List Message)
      → P groups messages
      → Takes groups gid m groups'
      → P groups' (messages ++ m ∷ [])) where
  -- What every taken message keeps, the whole loop keeps.
  pub scan_groups_inv :
      (now : ℕ) (max : ℤ) (order : List String) (groups : Groups) (messages : List Message)
      → P groups messages
      → let (messages', groups') = scan_groups now max order groups messages in P groups' messages'
  unfolding scan_groups
  scan_groups_inv now max [] groups messages h = h
  scan_groups_inv now max (gid ∷ order) groups messages h =
      elim (Option-cases (next_message now groups gid)) [
        | inl skipped ↦ rw (skipped, scan_groups) (scan_groups_inv now max order groups messages h)
        | inr ((m, groups'), taken) ↦
            let h' : P groups' (messages ++ m ∷ []) =
              keep groups groups' gid m messages h
                (next_message-Takes now groups groups' gid m taken) in
            elim (Bool-cases (leb_ℤ max (pos (length (messages ++ m ∷ []))))) [
              | inl full ↦ rw (taken, scan_groups, full) h'
              | inr room ↦
                  rw (taken, scan_groups, room)
                    (scan_groups_inv now max order groups' (messages ++ m ∷ []) h')
            ]
      ]

  pub get_messages_inv :
      (now : ℕ) (order : List String) (max : ℤ) (groups groups' : Groups) (messages : List Message)
      → get_messages_from_internal_queues now order max groups ≡ ok (messages, groups')
      → P groups []
      → P groups' messages
  unfolding get_messages_from_internal_queues
  get_messages_inv now order max groups groups' messages e h =
      elim (Bool-cases (ltb_ℤ max (pos 0))) [
        | inl negative ↦ ground arith
        | inr fits ↦
            let scanned : scan_groups now max order groups [] ≡ (messages, groups') =
              ground arith in
            subst (λ r. P r.1 r.0) scanned (scan_groups_inv now max order groups [] h)
      ]

-- A capacity that is not negative does not panic.
pub get_messages_safe :
    (now : ℕ) (order : List String) (max : ℤ) (groups : Groups)
    → pos 0 ≤ℤ max
    → get_messages_from_internal_queues now order max groups ≢ panic
unfolding get_messages_from_internal_queues
get_messages_safe now order max groups low e = ground arith
