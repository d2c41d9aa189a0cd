-- ===== src/Broker/Client.antt =====
-- What internal/broker/sqs/fifo.go uses of the AWS SDK, the clock, the UUID generator and the Go
-- runtime: parameters of the model. A call takes the state of the outside world and gives a new one.
use celery_to_go.Prelude.{ℕ, String, Option, List}
use celery_to_go.Prelude.Int.{ℤ}
use celery_to_go.Prelude.Dict.{Dict}
use celery_to_go.Prelude.Errors.{Error, Reply}
use celery_to_go.Broker.Config.{ReceiveMessageInput}

-- `types.Message`; SQS always sets the three pointers. `message_attributes` has the field
-- `StringValue` of each value, which may be nil.
pub record SqsMessage : Type 0 where
  pub message_id : String
  pub body : String
  pub receipt_handle : String
  pub attributes : Dict String
  pub message_attributes : Dict (Option String)

pub record SendMessageInput : Type 0 where
  pub queue_url : String
  pub message_body : List ℕ
  pub message_group_id : String
  pub message_deduplication_id : String
  pub message_attributes : Dict String

pub record ChangeVisibilityInput : Type 0 where
  pub queue_url : String
  pub receipt_handle : String
  pub visibility_timeout : ℤ

-- `range_keys` is the order in which `range` visits a map with those keys.
pub record Client : Type 1 where
  pub World : Type 0
  pub now : World → ℕ
  pub new_uuid : World → String × World
  pub range_keys : World → List String → List String
  pub get_queue_attributes : String → World → Option Error × World
  pub receive_message : ReceiveMessageInput → World → Reply (List SqsMessage) × World
  pub delete_message : String → String → World → Option Error × World
  pub send_message : SendMessageInput → World → Option Error × World
  pub change_message_visibility : ChangeVisibilityInput → World → Option Error × World
