-- ===== src/Broker/Groups/Examples.antt =====
-- The theorems on the message groups at a concrete state: two groups, one with a message that waits.
use celery_to_go.Prelude.{
  String, ◌≡◌, refl, true, false, some, List, [], ◌∷◌, ◌++◌, arith, ◌≤◌, ◌⊎◌, length, All,
}
use celery_to_go.Prelude.Int.{pos}
use celery_to_go.Prelude.Dict
use celery_to_go.Prelude.Dict.{get-empty}
use celery_to_go.Prelude.Errors.{ok}
use celery_to_go.Broker.Message.{Message}
use celery_to_go.Broker.Groups.{
  Groups, MessageGroupQueue, get_messages_from_internal_queues, scan_groups, next_message,
  add_messages_to_group, mark_group_as_available, take_first,
}
use celery_to_go.Broker.Groups.Consistent.{of_group, queued, IsConsistent, put-IsConsistent}
use celery_to_go.Broker.Groups.Fifo.{line, get_messages-line}
use celery_to_go.Broker.Groups.Bounds.{get_messages_bound, IsExhausted}
use celery_to_go.Broker.Groups.Stuck.{
  Run, IsStuck, here, next, take, fetch, acknowledge, batch_starves,
}

abbrev message : String → String → Message
message id gid = record {
  id = id;
  body = [];
  attributes = Dict.empty;
  message_group_id = gid;
  message_deduplication_id = id;
  receipt_handle = id;
}

abbrev idle_group : MessageGroupQueue
idle_group = record {
  group_id = "a";
  processing = false;
  last_access = 1;
  tasks = message "m1" "a" ∷ message "m2" "a" ∷ [];
}

abbrev busy_group : MessageGroupQueue
busy_group = record {
  group_id = "b";
  processing = true;
  last_access = 2;
  tasks = message "m3" "b" ∷ [];
}

abbrev two_groups : Groups
two_groups = Dict.put (Dict.put Dict.empty "a" idle_group) "b" busy_group

empty-IsConsistent : IsConsistent Dict.empty
empty-IsConsistent = record {
  at = λ gid group found. absurd (ground (arith, get-empty {V = MessageGroupQueue} gid));
}

two_groups-IsConsistent : IsConsistent two_groups
two_groups-IsConsistent =
    put-IsConsistent (Dict.put Dict.empty "a" idle_group) "b" busy_group
      (put-IsConsistent Dict.empty "a" idle_group empty-IsConsistent refl (refl, (refl, tt))) refl
      (refl, tt)

abbrev after_take : Groups
after_take =
    Dict.put two_groups "a"
      (record idle_group { processing = true; last_access = 7; tasks = message "m2" "a" ∷ [] })

taken_once :
    get_messages_from_internal_queues 7 ("b" ∷ "a" ∷ "c" ∷ []) (pos 5) two_groups
    ≡ ok (message "m1" "a" ∷ [], after_take)
unfolding get_messages_from_internal_queues scan_groups next_message take_first Dict.get Dict.put
    Dict.empty
taken_once = refl

get_messages-line_example :
    IsConsistent after_take
    × ((gid : String) → line gid (message "m1" "a" ∷ []) after_take ≡ queued two_groups gid)
get_messages-line_example =
    get_messages-line 7 ("b" ∷ "a" ∷ "c" ∷ []) (pos 5) two_groups after_take (message "m1" "a" ∷ [])
      taken_once two_groups-IsConsistent

busy_found : Dict.get two_groups "b" ≡ some busy_group
unfolding Dict.get Dict.put Dict.empty
busy_found = refl

get_messages_bound_example :
    (length (message "m1" "a" ∷ []) ≤ 5)
    × ((length (message "m1" "a" ∷ []) ≡ 5) ⊎ All (IsExhausted after_take) ("b" ∷ "a" ∷ "c" ∷ []))
get_messages_bound_example =
    get_messages_bound 7 5 ("b" ∷ "a" ∷ "c" ∷ []) two_groups after_take (message "m1" "a" ∷ [])
      taken_once

-- A batch of two messages of a new group, the first of which is acknowledged.
abbrev batch : List Message
batch = message "m4" "c" ∷ message "m5" "c" ∷ []

abbrev after_batch : Groups
after_batch = add_messages_to_group 8 two_groups "c" batch

abbrev after_acknowledge : Groups
after_acknowledge = mark_group_as_available 9 after_batch "c"

batch_acknowledged : Run after_batch [] after_acknowledge
batch_acknowledged = next here (acknowledge 9 "c")

taken_and_fetched :
    Run two_groups (message "m1" "a" ∷ []) (add_messages_to_group 8 after_take "c" batch)
taken_and_fetched =
    next (next here (take 7 ("b" ∷ "a" ∷ "c" ∷ []) (pos 5) taken_once))
      (fetch 8 "c" batch (refl, (refl, tt)))

two_groups-IsStuck : IsStuck "b" (message "m3" "b") [] two_groups
two_groups-IsStuck = record {
  group = busy_group;
  rest = [];
  found = busy_found;
  busy = refl;
  waiting = refl;
}

none_queued : queued two_groups "c" ≡ []
unfolding queued Dict.get Dict.put Dict.empty
none_queued = refl

batch_starves_example :
    ((rest : List Message) × (queued after_acknowledge "c" ≡ message "m5" "c" ∷ ([] ++ rest)))
    × (of_group "c" [] ≡ [])
batch_starves_example =
    batch_starves 8 "c" two_groups after_acknowledge (message "m4" "c") (message "m5" "c") [] []
      two_groups-IsConsistent none_queued (refl, (refl, tt)) batch_acknowledged
