-- ===== src/Broker/Receive/Examples.antt =====
-- The theorems on receiving at a concrete client and broker.
use celery_to_go.Prelude.{arith}
use celery_to_go.Prelude.Int.{pos}
use celery_to_go.Prelude.{◌≢◌}
use celery_to_go.Prelude.Errors.{panic}
use celery_to_go.Broker.Receive.Safety.{receive_messages_safe}
use celery_to_go.Broker.Samples.{sqs, broker}
use celery_to_go.Broker.Receive.{receive_messages}

never_panics : (receive_messages sqs (pos 5) broker 1).0 ≢ panic
never_panics = receive_messages_safe sqs (pos 5) broker 1 (omega arith) (omega arith)
