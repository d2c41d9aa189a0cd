-- ===== src/Service/Examples.antt =====
-- The theorems on the service at concrete data: SQS gives two messages of a group, the first is executed
-- and the second waits; and a client that gives one message.
use celery_to_go.Prelude.{
  ℕ, true, String, ◌≡◌, ◌⊎◌, ◌≤◌, ◌<◌, List, [], ◌∷◌, arith, refl, inr, ◌==◌, if◌then◌else◌,
}
use celery_to_go.Prelude.Int.{pos}
use celery_to_go.Prelude.Dict
use celery_to_go.Prelude.Errors.{Reply, reply, failed, new}
use celery_to_go.Protocol.Payload.{TaskPayload, nil, no_fields}
use celery_to_go.Broker.Message.{Message}
use celery_to_go.Broker.Client.{Client}
use celery_to_go.Broker.Groups.{add_messages_to_group, is_processing}
use celery_to_go.Broker.Groups.Consistent.{of_group, queued}
use celery_to_go.Broker.Groups.Fifo.{line}
use celery_to_go.Broker.Groups.Views.{waiting}
use celery_to_go.Broker.Samples
use celery_to_go.Worker.Types.{Worker, WorkerConfig}
use celery_to_go.Worker.Tasks.{Delivery}
use celery_to_go.Worker.Tasks.Accounting
use celery_to_go.Worker.Tasks.Accounting.{initial, after_poll}
use celery_to_go.Service.{
  System, Reachable, Run, stay, next, answer, pass_over, sort, hand, initial_service, without_group,
}
use celery_to_go.Service.Counts.{count, held, one, running, running-cons, count-nil, running-nil}
use celery_to_go.Service.Exclusive.{Reachable-at_most_one}
use celery_to_go.Service.Order.{Reachable-InLine}
use celery_to_go.Service.Overlap.{redelivery_overlaps}
use celery_to_go.Service.Blocked.{undecodable_blocks}
use celery_to_go.Service.Gives.{Anything}

abbrev add : TaskPayload
add = record {
  task_name = "add";
  task_id = "t";
  args = nil;
  kwargs = no_fields;
  retries = pos 0;
  queue = "";
}

abbrev decode : List ℕ → Reply TaskPayload
decode [] = failed (new "empty")
decode (b ∷ bs) = reply add

abbrev message : String → Message
message id = record {
  id = id;
  body = 1 ∷ [];
  attributes = Dict.empty;
  message_group_id = "a";
  message_deduplication_id = id;
  receipt_handle = id;
}

abbrev config : WorkerConfig
config = record {
  concurrency = pos 4;
  queue_prefetch = pos 10;
  task_timeout = pos 300;
  shutdown_timeout = pos 30;
  retry_backoff = record {
    initial_interval = pos 1;
    max_interval = pos 60;
    multiplier = 0;
    randomization_factor = 0;
  };
  heartbeat_interval = pos 10;
}

-- A queue of SQS that gives no message of a group of which the program has one.
abbrev InOrder : System → List Message → Type 0
InOrder s ms = (gid : String) → (count gid ms ≡ 0) ⊎ ((held gid s ≡ 0) × (waiting gid s.groups ≡ 0))

abbrev pair : List Message
pair = message "m1" ∷ message "m2" ∷ []

pair-InOrder : InOrder (initial_service config) pair
unfolding held waiting queued Dict.get Dict.empty
pair-InOrder gid = inr (omega (arith, count-nil gid, running-nil gid), refl)

of_group-pair : of_group "a" pair ≡ pair
unfolding of_group
of_group-pair = refl

abbrev fetched : System
fetched = record (initial_service config) {
  groups = add_messages_to_group 1 Dict.empty "a" pair;
  delivered = without_group "a" pair;
  tasks = after_poll decode 2 (reply (message "m1" ∷ [])) (initial config);
  accepted = pair;
  returned = message "m1" ∷ [];
}

two_fetched : Reachable decode InOrder config fetched
two_fetched =
    next
      (next (next stay (answer pair refl refl pair-InOrder))
        (sort 1 "a" (message "m1") (message "m2" ∷ []) refl of_group-pair))
      (hand 2 (message "m1") [] refl)

Reachable-at_most_one_example : held "a" fetched ≤ 1
Reachable-at_most_one_example =
    Reachable-at_most_one decode InOrder (λ s ms gid given. given gid) config fetched "a"
      two_fetched

Reachable-InLine_example : line "a" (message "m1" ∷ []) fetched.groups ≡ of_group "a" pair
Reachable-InLine_example =
    Reachable-InLine decode InOrder (λ s ms gid given. given gid) config fetched "a" two_fetched

abbrev executing : System
executing = record fetched {
  delivered = [];
  tasks = record (initial config) {
    executing = record { payload = add; message = message "m1" } ∷ [];
  };
}

own : one "a" (message "m1") ≡ 1
unfolding one
own = refl

one_runs : 0 < running "a" executing.tasks.executing
one_runs =
    omega (arith, running-cons "a" (record { payload = add; message = message "m1" }) [], own)

redelivery_overlaps_example :
    (t : System) × Run decode Anything executing t
    × (t.tasks.executing
        ≡ record { payload = add; message = message "m2" } ∷ executing.tasks.executing)
    × (1 < running "a" t.tasks.executing)
redelivery_overlaps_example =
    redelivery_overlaps decode Anything 3 executing (message "m2") add refl refl refl tt refl
      one_runs

-- The order of `range` as that of the first occurrences.
other_keys : String → List String → List String
other_keys k [] = []
other_keys k (j ∷ js) = let rest = other_keys k js in if k == j then rest else j ∷ rest

each_once : List String → List String
each_once [] = []
each_once (k ∷ ks) = k ∷ other_keys k (each_once ks)

abbrev client : Client
client = record Samples.sqs { range_keys = λ w ks. each_once ks }

abbrev tasks : Accounting.System
tasks = initial config

abbrev answered_delivery : Delivery
answered_delivery = record { payload = add; message = message "m1" }

abbrev answered_tasks : Accounting.System
answered_tasks = record tasks { answered = answered_delivery ∷ [] }

abbrev undecodable : Message
undecodable = record (message "m3") { body = [] }

abbrev poisoned : System
poisoned = record (initial_service config) {
  groups = Samples.broker.active_groups;
  batch = undecodable ∷ [];
}

-- SQS gives no message of this group.
abbrev Silent : System → List Message → Type 0
Silent s ms = count "a" ms ≡ 0

abbrev dropped : System
dropped = record poisoned {
  batch = [];
  tasks = after_poll decode 5 (reply (undecodable ∷ [])) poisoned.tasks;
}

held_once : held "a" poisoned ≡ 1
unfolding held count of_group
held_once = omega (arith, running-nil "a")

marked : is_processing poisoned.groups "a" ≡ true
unfolding is_processing Dict.get Dict.put Dict.empty
marked = refl

undecodable_blocks_example :
    (held "a" dropped ≡ 0)
    × (is_processing dropped.groups "a" ≡ true)
    × (queued dropped.groups "a" ≡ queued poisoned.groups "a")
undecodable_blocks_example =
    undecodable_blocks decode Silent 5 poisoned dropped undecodable [] (new "empty")
      (λ s ms none_given. none_given) Samples.broker-IsConsistent refl refl held_once
      (count-nil "a") (count-nil "a") tt marked (next stay (pass_over))
