-- ===== src/Broker/Requests/Examples.antt =====
-- The theorem on acknowledgements, and runs of the other requests, at a concrete client and broker.
use celery_to_go.Prelude.{◌≡◌, refl, none, some}
use celery_to_go.Prelude.Int.{pos}
use celery_to_go.Broker.Samples.{sqs, waiting, broker}
use celery_to_go.Broker.Requests.{
  connect, close, publish_message, extend_visibility_timeout, message_group_id_empty,
}

connects : connect sqs broker 1 ≡ (none, 1)
unfolding connect
connects = refl

closes : close sqs broker 1 ≡ (none, 1)
unfolding close
closes = refl

refuses_no_group :
    publish_message sqs (record waiting { message_group_id = "" }) broker 1
    ≡ (some message_group_id_empty, 1)
unfolding publish_message
refuses_no_group = refl

extends : extend_visibility_timeout sqs waiting (pos 60) broker 1 ≡ (none, 1)
unfolding extend_visibility_timeout
extends = refl
