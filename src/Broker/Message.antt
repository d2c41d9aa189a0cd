-- ===== src/Broker/Message.antt =====
-- `Message` of internal/broker/broker.go. A body is a list of bytes.
use celery_to_go.Prelude.{ℕ, String, List}
use celery_to_go.Prelude.Dict.{Dict}

pub record Message : Type 0 where
  pub id : String
  pub body : List ℕ
  pub attributes : Dict String
  pub message_group_id : String
  pub message_deduplication_id : String
  pub receipt_handle : String
