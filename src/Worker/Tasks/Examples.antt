-- ===== src/Worker/Tasks/Examples.antt =====
-- The theorems on the worker at a concrete decoder, which takes every body that is not empty, and one
-- task, which is received, executed and acknowledged.
use celery_to_go.Prelude.{ℕ, ◌≡◌, refl, true, none, List, [], ◌∷◌}
use celery_to_go.Prelude.Int.{pos}
use celery_to_go.Prelude.Dict
use celery_to_go.Prelude.Errors.{new, ok, Reply, reply, failed}
use celery_to_go.Protocol.Payload.{TaskPayload, ResultPayload, nil, no_fields}
use celery_to_go.Broker.Message.{Message}
use celery_to_go.Worker.Types.{WorkerConfig}
use celery_to_go.Worker.Tasks.{
  Delivery, new_default_worker, process_messages, process_tasks, start_task, receive_task,
  get_task_info, stop, stats, zero_pool_stats, finish_task,
}
use celery_to_go.Worker.Tasks.Outcome.{Outcome, finish_task-Outcome}
use celery_to_go.Worker.Tasks.Accounting.{
  System, Step, initial, after_poll, after_finish, poll, begin, finish, acknowledge, Reachable,
  start, step, IsBalanced, Reachable-IsBalanced,
}

abbrev add : TaskPayload
add = record {
  task_name = "add";
  task_id = "t";
  args = nil;
  kwargs = no_fields;
  retries = pos 0;
  queue = "";
}

abbrev decode : List ℕ → Reply TaskPayload
decode [] = failed (new "empty")
decode (b ∷ bs) = reply add

abbrev message : List ℕ → Message
message body = record {
  id = "m";
  body = body;
  attributes = Dict.empty;
  message_group_id = "a";
  message_deduplication_id = "m";
  receipt_handle = "r";
}

abbrev config : WorkerConfig
config = record {
  concurrency = pos 4;
  queue_prefetch = pos 10;
  task_timeout = pos 300;
  shutdown_timeout = pos 30;
  retry_backoff = record {
    initial_interval = pos 1;
    max_interval = pos 60;
    multiplier = 0;
    randomization_factor = 0;
  };
  heartbeat_interval = pos 10;
}

abbrev batch : List Message
batch = message (1 ∷ []) ∷ message [] ∷ []

abbrev delivery : Delivery
delivery = record { payload = add; message = message (1 ∷ []) }

abbrev refused : Reply ResultPayload
refused = failed (new "no process")

finish_task-Outcome_example :
    Outcome 9
      (pos 0)
      refused
      delivery
      (new_default_worker config)
      (finish_task 9 (pos 0) refused delivery (new_default_worker config))
finish_task-Outcome_example =
    finish_task-Outcome 9 (pos 0) refused delivery (new_default_worker config)

polled : Reachable decode config (after_poll decode 5 (reply batch) (initial config))
polled = step start (poll 5 (reply batch))

one_spawned : (after_poll decode 5 (reply batch) (initial config)).spawned ≡ delivery ∷ []
unfolding process_tasks process_messages
one_spawned = refl

abbrev begun : System
begun =
    let s = after_poll decode 5 (reply batch) (initial config) in
    record s { worker = start_task 6 delivery s.worker; spawned = []; executing = delivery ∷ [] }

abbrev finished_once : System
finished_once = after_finish decode 9 (pos 0) refused delivery [] [] begun

abbrev acknowledged_once : System
acknowledged_once = record finished_once { answered = []; acknowledged = delivery.message ∷ [] }

none_failed : begun.worker.stats.tasks_failed ∷ begun.earlier ≡ pos 0 ∷ []
unfolding new_default_worker process_tasks process_messages start_task receive_task
none_failed = refl

has_begun : Reachable decode config begun
has_begun = step polled (begin 6 delivery [] [] one_spawned)

finishes : Step decode begun finished_once
finishes = finish 9 (pos 0) refused delivery [] [] [] [] refl none_failed

whole_life : Reachable decode config acknowledged_once
whole_life = step (step has_begun finishes) (acknowledge delivery [] [] refl)

Reachable-IsBalanced_example : IsBalanced decode acknowledged_once
Reachable-IsBalanced_example = Reachable-IsBalanced decode whole_life

no_such_task : get_task_info "t" (new_default_worker config) ≡ failed (new "task not found: t")
unfolding get_task_info new_default_worker Dict.get Dict.empty
no_such_task = refl

stops_in_time :
    stop true (new_default_worker config)
    ≡ ok (none, record (new_default_worker config) { is_shut_down = true })
unfolding stop new_default_worker
stops_in_time = refl

no_active_task : (stats zero_pool_stats (new_default_worker config)).0.active_tasks ≡ pos 0
unfolding stats
no_active_task = refl
