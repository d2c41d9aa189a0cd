-- ===== src/Broker/Requests.antt =====
-- `Connect`, `Close`, `AcknowledgeMessage`, `PublishMessage` and `ExtendVisibilityTimeout` of
-- internal/broker/sqs/fifo.go.
pub mod Acknowledged
mod Examples
use mathlib.Core.Option
use celery_to_go.Prelude.{Option, none, some, ◌==◌, if◌then◌else◌}
use celery_to_go.Prelude.Int.{ℤ, int32}
use celery_to_go.Prelude.Errors.{Error, new, wrap}
use celery_to_go.Broker.Message.{Message}
use celery_to_go.Broker.Config.{Broker}
use celery_to_go.Broker.Client.{Client}
use celery_to_go.Broker.Groups.{mark_group_as_available}

abbrev pub message_group_id_empty : Error
message_group_id_empty = new "message group ID is empty for FIFO queue"

abbrev pub deduplication_id_empty : Error
deduplication_id_empty = new "deduplication ID is empty for FIFO queue"

module _ (c : Client) where
  open c use {
    World, now, get_queue_attributes, delete_message, send_message, change_message_visibility,
  }

  pub connect : Broker → World → Option Error × World
  connect b w =
      let (e, w') = get_queue_attributes b.queue_url w in
      (Option.map (wrap "failed to connect to SQS queue") e, w')

  pub close : Broker → World → Option Error × World
  close b w = (none, w)

  unfoldable pub acknowledge_message : Message → Broker → World → Option Error × Broker × World
  acknowledge_message message b w =
      let (e, w') = delete_message b.queue_url message.receipt_handle w in
      elim e [
        | some e' ↦ (some (wrap "failed to delete message from SQS" e'), b, w')
        | none ↦ (
          none,
          record b {
            active_groups =
                mark_group_as_available (now w') b.active_groups message.message_group_id;
          },
          w',
        )
      ]

  send : Message → Broker → World → Option Error × World
  send message b w =
      let (e, w') =
        send_message
          (record {
            queue_url = b.queue_url;
            message_body = message.body;
            message_group_id = message.message_group_id;
            message_deduplication_id = message.message_deduplication_id;
            message_attributes = message.attributes;
          })
          w in
      (Option.map (wrap "failed to send message to SQS") e, w')

  pub publish_message : Message → Broker → World → Option Error × World
  unfolding send
  publish_message message b w =
      if message.message_group_id == ""
      then (some message_group_id_empty, w)
      else if message.message_deduplication_id == ""
      then (some deduplication_id_empty, w)
      else send message b w

  pub extend_visibility_timeout : Message → ℤ → Broker → World → Option Error × World
  extend_visibility_timeout message seconds b w =
      let (e, w') =
        change_message_visibility
          (record {
            queue_url = b.queue_url;
            receipt_handle = message.receipt_handle;
            visibility_timeout = int32 seconds;
          })
          w in
      (Option.map (wrap "failed to extend message visibility timeout") e, w')
