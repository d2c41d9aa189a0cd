-- ===== src/Broker/Groups.antt =====
-- `activeGroups` of internal/broker/sqs/fifo.go and the code that runs under `groupsMutex`: each
-- function below is one critical section. `now` is what `time.Now()` gives, and `order` the order
-- in which `range` visits the keys of the map.
pub mod Scan
pub mod Consistent
pub mod Fifo
pub mod Busy
pub mod Stuck
pub mod Bounds
pub mod Views
pub mod Queued
mod Examples
use celery_to_go.Prelude.{
  ℕ, String, Bool, true, false, not, ◌&&◌, Option, none, some, List, [], ◌∷◌, ◌++◌, length, tail,
  ltb, if◌then◌else◌,
}
use celery_to_go.Prelude.Int.{ℤ, pos, ltb_ℤ, leb_ℤ}
use celery_to_go.Prelude.Dict
use celery_to_go.Prelude.Dict.{Dict}
use celery_to_go.Prelude.Errors.{Result, ok, panic}
use celery_to_go.Broker.Message.{Message}

pub record MessageGroupQueue : Type 0 where
  pub group_id : String
  pub processing : Bool
  pub last_access : ℕ
  pub tasks : List Message

abbrev pub Groups : Type 0
Groups = Dict MessageGroupQueue

-- A group that is made by a composite literal: the fields that it leaves out are zero.
abbrev pub new_group : String → MessageGroupQueue
new_group gid = record { group_id = gid; processing = false; last_access = 0; tasks = [] }

take_first : ℕ → MessageGroupQueue → List Message → Option (Message × MessageGroupQueue)
take_first now group [] = none
take_first now group (m ∷ rest) =
    if group.processing
    then none
    else some (m, record group { processing = true; last_access = now; tasks = rest })

-- One round of the loop over the groups: `none` where it says `continue`.
pub next_message : ℕ → Groups → String → Option (Message × Groups)
unfolding take_first
next_message now groups gid = elim (Dict.get groups gid) [
  | none ↦ none
  | some group ↦ elim (take_first now group group.tasks) [
    | none ↦ none
    | some (m, group') ↦ some (m, Dict.put groups gid group')
  ]
]

pub scan_groups : ℕ → ℤ → List String → Groups → List Message → List Message × Groups
scan_groups now max [] groups messages = (messages, groups)
scan_groups now max (gid ∷ order) groups messages = elim (next_message now groups gid) [
  | none ↦ scan_groups now max order groups messages
  | some (m, groups') ↦ elim (leb_ℤ max (pos (length (messages ++ m ∷ [])))) [
    | true ↦ (messages ++ m ∷ [], groups')
    | false ↦ scan_groups now max order groups' (messages ++ m ∷ [])
  ]
]

-- `make` panics on a negative capacity; that the memory ends is left out.
pub get_messages_from_internal_queues :
    ℕ → List String → ℤ → Groups → Result (List Message × Groups)
get_messages_from_internal_queues now order max groups =
    if ltb_ℤ max (pos 0) then panic else ok (scan_groups now max order groups [])

abbrev pub find_or_new : Groups → String → MessageGroupQueue
find_or_new groups gid = elim (Dict.get groups gid) [ none ↦ new_group gid | some group ↦ group ]

pub add_messages_to_group : ℕ → Groups → String → List Message → Groups
add_messages_to_group now groups gid messages =
    let group = find_or_new groups gid in
    let first = not (ltb 0 (length group.tasks)) && ltb 0 (length messages) in
    Dict.put groups gid (record group {
      processing = if first then true else group.processing;
      tasks = if ltb 1 (length messages) then group.tasks ++ tail messages else group.tasks;
      last_access = now;
    })

pub mark_group_as_processing : ℕ → Groups → String → Groups
mark_group_as_processing now groups gid =
    let group = find_or_new groups gid in
    Dict.put groups gid (record group { processing = true; last_access = now })

pub mark_group_as_available : ℕ → Groups → String → Groups
mark_group_as_available now groups gid = elim (Dict.get groups gid) [
  | none ↦ groups
  | some group ↦ Dict.put groups gid (record group {
    processing = if ltb 0 (length group.tasks) then group.processing else false;
    last_access = now;
  })
]

-- The first loop of `getAvailableGroups`.
pub idle_groups : Groups → List String → List String
idle_groups groups [] = []
idle_groups groups (gid ∷ order) =
    let rest = idle_groups groups order in
    elim (Dict.get groups gid) [
      | none ↦ rest
      | some group ↦ if group.processing then rest else gid ∷ rest
    ]

-- The test on a probed message: its group is known and is being processed.
unfoldable pub is_processing : Groups → String → Bool
is_processing groups gid = elim (Dict.get groups gid) [
  | none ↦ false
  | some group ↦ group.processing
]

-- What the second loop of `getAvailableGroups` does with a message that it has decoded.
pub add_probed_message : ℕ → Groups → String → Message → Groups
add_probed_message now groups gid msg = elim (Dict.get groups gid) [
  | none ↦
      Dict.put groups gid
        (record { group_id = gid; processing = false; last_access = now; tasks = msg ∷ [] })
  | some group ↦ Dict.put groups gid (record group { tasks = group.tasks ++ msg ∷ [] })
]
