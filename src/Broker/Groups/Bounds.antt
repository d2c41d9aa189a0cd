-- ===== src/Broker/Groups/Bounds.antt =====
-- How many messages `getMessagesFromInternalQueues` returns, and when it may stop early.
use celery_to_go.Prelude.{
  none, true, ℕ, zero, suc, ◌∙◌, ◌≤◌, ◌<◌, String, ◌≡◌, ◌⊎◌, refl, sym, subst, true, false, none,
  some, List, [], ◌∷◌, ◌++◌, All, length, length-append, arith, eq_iff, ◌==◌, Bool-cases,
  Option-cases, inl, inr,
}
use native.Mathlib.Decide.{dec_lt}
use celery_to_go.Prelude.Int.{ℤ, pos, leb_ℤ}
use celery_to_go.Prelude.Dict
use celery_to_go.Prelude.Dict.{get-put}
use celery_to_go.Prelude.Errors.{ok}
use celery_to_go.Broker.Message.{Message}
use celery_to_go.Broker.Groups.{
  Groups, MessageGroupQueue, get_messages_from_internal_queues, next_message, scan_groups,
  take_first,
}
use celery_to_go.Broker.Groups.Scan.{Takes, scan_groups_inv, next_message-Takes}

scan_groups_bound :
    (now max : ℕ) (order : List String) (groups : Groups) (messages : List Message)
    → length messages < max
    → length (scan_groups now (pos max) order groups messages).0 ≤ max
unfolding scan_groups
scan_groups_bound now max [] groups messages h = omega arith
scan_groups_bound now max (gid ∷ order) groups messages h =
    elim (Option-cases (next_message now groups gid)) [
      | inl skipped ↦ rw (skipped, scan_groups) (scan_groups_bound now max order groups messages h)
      | inr ((m, groups'), taken) ↦
          elim (Bool-cases (leb_ℤ (pos max) (pos (length (messages ++ m ∷ []))))) [
            | inl full ↦
                rw (taken, scan_groups, full) (omega (arith, length-append messages (m ∷ [])))
            | inr room ↦
                rw (taken, scan_groups, room)
                  (scan_groups_bound now max order groups' (messages ++ m ∷ []) (ground arith))
          ]
    ]

-- If the group is known and not being processed, its queue is empty.
abbrev IsSpent : Groups → String → Type 0
IsSpent groups gid =
    (group : MessageGroupQueue)
    → Dict.get groups gid ≡ some group
    → group.processing ≡ false
    → group.tasks ≡ []

take_first-none :
    (now : ℕ) (group : MessageGroupQueue) (tasks : List Message)
    → take_first now group tasks ≡ none
    → group.processing ≡ false
    → tasks ≡ []
unfolding take_first
take_first-none now group [] e idle = refl
take_first-none now group (m ∷ rest) e idle = ground arith

skipped-IsSpent :
    (now : ℕ) (groups : Groups) (gid : String)
    → next_message now groups gid ≡ none
    → IsSpent groups gid
unfolding next_message
skipped-IsSpent now groups gid e group found idle =
    elim (Option-cases (take_first now group group.tasks)) [
      | inl skipped ↦ take_first-none now group group.tasks skipped idle
      | inr (taken, e') ↦ absurd (ground arith)
    ]

Takes-IsSpent :
    (groups groups' : Groups) (gid j : String) (m : Message)
    → Takes groups gid m groups'
    → (gid ≡ j) ⊎ IsSpent groups j
    → IsSpent groups' j
Takes-IsSpent groups groups' gid j m t h group found idle =
    let e =
      get-put groups gid j
        (record t.group { processing = true; last_access = t.now; tasks = t.rest }) in
    elim (Bool-cases (gid == j)) [
      | inl same ↦ absurd (ground (arith, e))
      | inr other ↦ elim h [
        | inl hit ↦ absurd (ground (arith, eq_iff gid j))
        | inr before ↦ before group (ground (arith, e)) idle
      ]
    ]

scan_groups-IsSpent :
    (now : ℕ) (max : ℤ) (order : List String) (groups : Groups) (messages : List Message)
    (j : String)
    → IsSpent groups j
    → IsSpent (scan_groups now max order groups messages).1 j
scan_groups-IsSpent now max order groups messages j h =
    scan_groups_inv (λ g _. IsSpent g j)
      (λ g g' gid m ms h' t. Takes-IsSpent g g' gid j m t (inr h')) now max order groups messages h

scan_groups_complete :
    (now max : ℕ) (order : List String) (groups : Groups) (messages : List Message)
    → length (scan_groups now (pos max) order groups messages).0 < max
    → All (IsSpent (scan_groups now (pos max) order groups messages).1) order
unfolding scan_groups
scan_groups_complete now max [] groups messages h = tt
scan_groups_complete now max (gid ∷ order) groups messages h =
    elim (Option-cases (next_message now groups gid)) [
      | inl skipped ↦
          let step : scan_groups now (pos max) (gid ∷ order) groups messages
              ≡ scan_groups now (pos max) order groups messages =
            rw (skipped, scan_groups) in
          subst (λ r. All (IsSpent r.1) (gid ∷ order)) (sym step)
            (
              scan_groups-IsSpent now (pos max) order groups messages gid
                  (skipped-IsSpent now groups gid skipped),
              scan_groups_complete now max order groups messages (rw (skipped, scan_groups) at h),
            )
      | inr ((m, groups'), taken) ↦
          elim (Bool-cases (leb_ℤ (pos max) (pos (length (messages ++ m ∷ []))))) [
            | inl full ↦ absurd (ground (arith, rw (taken, scan_groups, full) at h))
            | inr room ↦
                let step : scan_groups now (pos max) (gid ∷ order) groups messages
                    ≡ scan_groups now (pos max) order groups' (messages ++ m ∷ []) =
                  rw (taken, scan_groups, room) in
                subst (λ r. All (IsSpent r.1) (gid ∷ order)) (sym step)
                  (
                    scan_groups-IsSpent now (pos max) order groups' (messages ++ m ∷ []) gid (
                        Takes-IsSpent groups groups' gid gid m
                          (next_message-Takes now groups groups' gid m taken) (inl refl)),
                    scan_groups_complete now max order groups' (messages ++ m ∷ [])
                        (rw (taken, scan_groups, room) at h),
                  )
          ]
    ]

-- The group is unknown, being processed or empty.
abbrev pub IsExhausted : Groups → String → Type 0
IsExhausted groups gid =
    (Dict.get groups gid ≡ none)
    ⊎ ((group : MessageGroupQueue) × (Dict.get groups gid ≡ some group)
        × ((group.processing ≡ true) ⊎ (group.tasks ≡ [])))

spent-IsExhausted : (groups : Groups) (gid : String) → IsSpent groups gid → IsExhausted groups gid
spent-IsExhausted groups gid spent = elim (Option-cases (Dict.get groups gid)) [
  | inl unknown ↦ inl unknown
  | inr (group, found) ↦ elim (Bool-cases group.processing) [
    | inl busy ↦ inr (group, found, inl busy)
    | inr idle ↦ inr (group, found, inr (spent group found idle))
  ]
]

All-IsExhausted :
    (groups : Groups) (order : List String)
    → All (IsSpent groups) order
    → All (IsExhausted groups) order
All-IsExhausted groups [] spent = tt
All-IsExhausted groups (gid ∷ order) (spent, rest) =
    (spent-IsExhausted groups gid spent, All-IsExhausted groups order rest)

-- The test of the limit comes after a message is taken, so 0 is as good as 1.
scan_groups-zero :
    (now : ℕ) (order : List String) (groups : Groups) (messages : List Message)
    → scan_groups now (pos 0) order groups messages ≡ scan_groups now (pos 1) order groups messages
unfolding scan_groups
scan_groups-zero now [] groups messages = refl
scan_groups-zero now (gid ∷ order) groups messages =
    elim (Option-cases (next_message now groups gid)) [
      | inl skipped ↦ rw (skipped, scan_groups) (scan_groups-zero now order groups messages)
      | inr ((m, groups'), taken) ↦
          let some_message : leb_ℤ (pos 1) (pos (length (messages ++ m ∷ []))) ≡ true =
            ground (arith, length-append messages (m ∷ [])) in
          let full : leb_ℤ (pos 0) (pos (length (messages ++ m ∷ []))) ≡ true = ground arith in
          rw (taken, scan_groups, some_message, full) refl
    ]

abbrev pub at_least_one : ℕ → ℕ
at_least_one zero = 1
at_least_one (suc n) = suc n

scan_groups-at_least_one :
    (now max : ℕ) (order : List String) (groups : Groups)
    → scan_groups now (pos max) order groups []
      ≡ scan_groups now (pos (at_least_one max)) order groups []
scan_groups-at_least_one now zero order groups = scan_groups-zero now order groups []
scan_groups-at_least_one now (suc n) order groups = refl

some_room : (max : ℕ) → 0 < at_least_one max
some_room zero = omega arith
some_room (suc n) = omega arith

-- When `getMessagesFromInternalQueues` returns for a limit that is not negative, it returns at most that
-- many messages, or at most one for the limit 0; and either exactly that many, or every group that it was to visit is
-- left unknown, being processed or empty.
pub get_messages_bound :
    (now max : ℕ) (order : List String) (groups groups' : Groups) (messages : List Message)
    → get_messages_from_internal_queues now order (pos max) groups ≡ ok (messages, groups')
    → (length messages ≤ at_least_one max)
      × ((length messages ≡ at_least_one max) ⊎ All (IsExhausted groups') order)
unfolding get_messages_from_internal_queues
get_messages_bound now max order groups groups' messages e =
    let limit = at_least_one max in
    let scanned : scan_groups now (pos limit) order groups [] ≡ (messages, groups') =
      sym (scan_groups-at_least_one now max order groups) ∙ ground arith in
    subst (λ r. (length r.0 ≤ limit) × ((length r.0 ≡ limit) ⊎ All (IsExhausted r.1) order)) scanned
      (
        scan_groups_bound now limit order groups [] (some_room max),
        scanned_all limit (some_room max),
      )
  where
    scanned_all :
        (limit : ℕ)
        → 0 < limit
        → (length (scan_groups now (pos limit) order groups []).0 ≡ limit)
          ⊎ All (IsExhausted (scan_groups now (pos limit) order groups []).1) order
    scanned_all limit h =
        elim (dec_lt (length (scan_groups now (pos limit) order groups []).0) limit) [
          | yes fewer ↦
              inr (All-IsExhausted _ order (scan_groups_complete now limit order groups [] fewer))
          | no full ↦ inl (omega (arith, scan_groups_bound now limit order groups [] h))
        ]
