-- ===== src/Protocol/Message.antt =====
-- internal/protocol/message/message.go: the internal messages. The embedded `BaseMessage` is the field
-- `base`. `Stamp` is what `NewBaseMessage` takes from the UUID generator and the clock.
use celery_to_go.Prelude.{ℕ, String, Bool}
use celery_to_go.Prelude.Int.{ℤ}
use celery_to_go.Protocol.Payload.{Value, Items, Fields, TaskPayload, ResultPayload, Stamp}

abbrev pub internal_task_message : String
internal_task_message = "task"

abbrev pub internal_result_message : String
internal_result_message = "result"

abbrev pub internal_ping_message : String
internal_ping_message = "ping"

abbrev pub internal_pong_message : String
internal_pong_message = "pong"

abbrev pub internal_stop_message : String
internal_stop_message = "stop"

pub record BaseMessage : Type 0 where
  pub message_type : String
  pub message_id : String
  pub message_timestamp : ℕ

unfoldable pub new_base_message : String → Stamp → BaseMessage
new_base_message msg_type s = record {
  message_type = msg_type;
  message_id = s.message_id;
  message_timestamp = s.timestamp;
}

pub record TaskMessage : Type 0 where
  pub base : BaseMessage
  pub task_name : String
  pub task_id : String
  pub args : Items
  pub kwargs : Fields
  pub retries : ℤ
  pub queue : String

unfoldable pub new_task_message : Stamp → TaskPayload → TaskMessage
new_task_message s payload = record {
  base = new_base_message internal_task_message s;
  task_name = payload.task_name;
  task_id = payload.task_id;
  args = payload.args;
  kwargs = payload.kwargs;
  retries = payload.retries;
  queue = payload.queue;
}

unfoldable pub task_payload : TaskMessage → TaskPayload
task_payload m = record {
  task_name = m.task_name;
  task_id = m.task_id;
  args = m.args;
  kwargs = m.kwargs;
  retries = m.retries;
  queue = m.queue;
}

pub record ResultMessage : Type 0 where
  pub base : BaseMessage
  pub task_id : String
  pub status : String
  pub result : Value
  pub error : String
  pub traceback : String
  pub runtime : ℕ
  pub memory_used : ℤ

unfoldable pub new_result_message : Stamp → ResultPayload → ResultMessage
new_result_message s payload = record {
  base = new_base_message internal_result_message s;
  task_id = payload.task_id;
  status = payload.status;
  result = payload.result;
  error = payload.error;
  traceback = payload.traceback;
  runtime = payload.runtime;
  memory_used = payload.memory_used;
}

unfoldable pub result_payload : ResultMessage → ResultPayload
result_payload m = record {
  task_id = m.task_id;
  status = m.status;
  result = m.result;
  error = m.error;
  traceback = m.traceback;
  runtime = m.runtime;
  memory_used = m.memory_used;
}

pub record StopMessage : Type 0 where
  pub base : BaseMessage
  pub graceful : Bool

unfoldable pub new_stop_message : Stamp → Bool → StopMessage
new_stop_message s graceful = record {
  base = new_base_message internal_stop_message s;
  graceful = graceful;
}

pub record PingMessage : Type 0 where
  pub base : BaseMessage

unfoldable pub new_ping_message : Stamp → PingMessage
new_ping_message s = record { base = new_base_message internal_ping_message s }

pub record PongMessage : Type 0 where
  pub base : BaseMessage
  pub ping_id : String

unfoldable pub new_pong_message : Stamp → String → PongMessage
new_pong_message s ping_id = record {
  base = new_base_message internal_pong_message s;
  ping_id = ping_id;
}
