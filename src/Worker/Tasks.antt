-- ===== src/Worker/Tasks.antt =====
-- The methods of `DefaultWorker` in internal/worker/factory.go. `processTasks` starts a goroutine
-- for each task, which it names by a `Delivery`; `executeTask`, which that goroutine runs, is cut at
-- its calls: `start_task` is what it does before it calls the pool, `finish_task` what it does
-- with the pool's answer, and then it acknowledges the message. `TasksFailed++` is a read and a write
-- that no mutex joins: `seen` is the count that it has read, which may be an old one. Logging is left
-- out.
pub mod Decoding
pub mod Outcome
pub mod Accounting
pub mod Draining
mod Examples
use Prim.Native.String
use celery_to_go.Prelude.{
  ℕ, String, Bool, true, false, Option, none, some, List, [], ◌∷◌, ◌==◌, if◌then◌else◌,
}
use celery_to_go.Prelude.Int.{ℤ, pos, ◌+ℤ◌}
use celery_to_go.Prelude.Dict
use celery_to_go.Prelude.Errors.{Error, new, wrap, Result, ok, panic, Reply, reply, failed}
use celery_to_go.Protocol.Payload.{TaskPayload, ResultPayload, null, nil, no_fields}
use celery_to_go.Broker.Message.{Message}
use celery_to_go.Pool.Types.{PoolStats}
use celery_to_go.Worker.Types.{
  TaskState, pending, running, success, error, no_state, TaskInfo, WorkerConfig, WorkerStats,
  Worker,
}

-- The arguments of `executeTask`.
pub record Delivery : Type 0 where
  pub payload : TaskPayload
  pub message : Message

-- `err.Error()`
unfoldable pub error_text : Error → String
error_text (new s) = s
error_text (wrap s e) = String.◌++◌ s (String.◌++◌ ": " (error_text e))

abbrev pub zero_pool_stats : PoolStats
zero_pool_stats = record {
  total_processes = pos 0;
  idle_processes = pos 0;
  busy_processes = pos 0;
  starting_processes = pos 0;
  stopping_processes = pos 0;
  total_tasks_processed = pos 0;
  process_stats = Dict.empty;
}

unfoldable pub new_default_worker : WorkerConfig → Worker
new_default_worker config = record {
  config = config;
  stats = record {
    start_time = 0;
    tasks_received = pos 0;
    tasks_succeeded = pos 0;
    tasks_failed = pos 0;
    tasks_retried = pos 0;
    active_tasks = pos 0;
    pool_stats = zero_pool_stats;
  };
  task_infos = Dict.empty;
  is_shut_down = false;
}

-- `Stats`, for what the pool answers.
pub stats : PoolStats → Worker → WorkerStats × Worker
stats pool_stats w =
    let s = record w.stats { active_tasks = pool_stats.busy_processes; pool_stats = pool_stats } in
    (s, record w { stats = s })

pub get_task_info : String → Worker → Reply TaskInfo
get_task_info id w = elim (Dict.get w.task_infos id) [
  | some info ↦ reply info
  | none ↦ failed (new (String.◌++◌ "task not found: " id))
]

-- `Stop`, where `in_time` says whether the loop ends before the deadline. A second call panics.
pub stop : (in_time : Bool) → Worker → Result (Option Error × Worker)
stop in_time w =
    if w.is_shut_down
    then panic
    else ok (
      if in_time then none else some (new "timeout waiting for worker to stop"),
      record w { is_shut_down = true },
    )

pub new_task_info : ℕ → TaskPayload → Message → TaskInfo
new_task_info now payload message = record {
  id = payload.task_id;
  name = payload.task_name;
  state = pending;
  args = payload.args;
  kwargs = payload.kwargs;
  queue = payload.queue;
  message_group_id = message.message_group_id;
  retries = payload.retries;
  max_retries = pos 0;
  received_at = now;
  started_at = 0;
  completed_at = 0;
  result = null;
  error_text = "";
  traceback = "";
  process_id = "";
}

pub receive_task : ℕ → Delivery → Worker → Worker
unfolding new_task_info
receive_task now d w = record w {
  task_infos = Dict.put w.task_infos d.payload.task_id (new_task_info now d.payload d.message);
  stats = record w.stats { tasks_received = w.stats.tasks_received +ℤ pos 1 };
}

-- What `w.taskInfos[id]` gives: the zero value where the key is missing.
pub task_info : Worker → String → TaskInfo
task_info w id = elim (Dict.get w.task_infos id) [
  | some info ↦ info
  | none ↦ record {
    id = "";
    name = "";
    state = no_state;
    args = nil;
    kwargs = no_fields;
    queue = "";
    message_group_id = "";
    retries = pos 0;
    max_retries = pos 0;
    received_at = 0;
    started_at = 0;
    completed_at = 0;
    result = null;
    error_text = "";
    traceback = "";
    process_id = "";
  }
]

pub start_task : ℕ → Delivery → Worker → Worker
unfolding task_info
start_task now d w =
    let id = d.payload.task_id in
    record w {
      task_infos =
          Dict.put w.task_infos id (record (task_info w id) { state = running; started_at = now });
    }

fail_task : ℕ → (seen : ℤ) → Error → Delivery → Worker → Worker
unfolding task_info
fail_task now seen e d w =
    let id = d.payload.task_id in
    record w {
      task_infos = Dict.put w.task_infos id (record (task_info w id) {
        state = error;
        error_text = error_text e;
        completed_at = now;
      });
      stats = record w.stats { tasks_failed = seen +ℤ pos 1 };
    }

complete_task : ℕ → (seen : ℤ) → ResultPayload → Delivery → Worker → Worker
unfolding task_info
complete_task now seen r d w =
    let id = d.payload.task_id in
    let info = record (task_info w id) { completed_at = now; result = r.result } in
    if r.status == "success"
    then record w {
      task_infos = Dict.put w.task_infos id (record info { state = success });
      stats = record w.stats { tasks_succeeded = w.stats.tasks_succeeded +ℤ pos 1 };
    }
    else record w {
      task_infos =
          Dict.put w.task_infos id
            (record info { state = error; error_text = r.error; traceback = r.traceback });
      stats = record w.stats { tasks_failed = seen +ℤ pos 1 };
    }

pub finish_task : ℕ → (seen : ℤ) → Reply ResultPayload → Delivery → Worker → Worker
unfolding fail_task complete_task
finish_task now seen (failed e) d w = fail_task now seen e d w
finish_task now seen (reply r) d w = complete_task now seen r d w

module _ (decode_task : List ℕ → Reply TaskPayload) where
  -- The loop over the messages: the goroutines that it starts, in their order.
  pub process_messages : ℕ → List Message → Worker → List Delivery × Worker
  process_messages now [] w = ([], w)
  process_messages now (m ∷ ms) w = elim (decode_task m.body) [
    | failed _ ↦ process_messages now ms w
    | reply payload ↦
        let d : Delivery = record { payload = payload; message = m } in
        let (ds, w') = process_messages now ms (receive_task now d w) in (d ∷ ds, w')
  ]

  -- `processTasks`, for what the broker answers.
  pub process_tasks : ℕ → Reply (List Message) → Worker → Option Error × List Delivery × Worker
  process_tasks now (failed e) w = (some (wrap "failed to receive messages" e), [], w)
  process_tasks now (reply ms) w = let (ds, w') = process_messages now ms w in (none, ds, w')
