-- ===== src/Broker/Config.antt =====
-- `Config` of internal/broker/broker.go, and `NewSQSFIFOBroker` of internal/broker/sqs/fifo.go with
-- the state that it builds. The SQS client is no part of the state: see Broker/Client.
pub mod Defaults
use Prim.Native.String
use Prim.Native.String.{len, slice}
use celery_to_go.Prelude.{ℕ, ◌-◌, String, Bool, true, not, ◌&&◌, ◌||◌, ltb, ◌==◌, if◌then◌else◌}
use celery_to_go.Prelude.Int.{ℤ, pos, ltb_ℤ, leb_ℤ, int32}
use celery_to_go.Prelude.Dict
use celery_to_go.Prelude.Errors.{Error, new, Result, ok, err}
use celery_to_go.Broker.Groups.{Groups}

pub record Config : Type 0 where
  pub queue_url : String
  pub region : String
  pub endpoint : String
  pub max_messages : ℤ
  pub visibility_timeout : ℤ
  pub wait_time_seconds : ℤ
  pub fetch_mode : String
  pub batch_size : ℤ
  pub max_prefetch : ℤ

-- `sqs.ReceiveMessageInput`, without the two constant lists of attribute names.
pub record ReceiveMessageInput : Type 0 where
  pub queue_url : String
  pub max_number_of_messages : ℤ
  pub visibility_timeout : ℤ
  pub wait_time_seconds : ℤ
  pub receive_request_attempt_id : String

pub record Broker : Type 0 where
  pub queue_url : String
  pub config : Config
  pub active_groups : Groups
  pub receive_params : ReceiveMessageInput

abbrev pub queue_url_empty : Error
queue_url_empty = new "queue URL is empty"

abbrev not_fifo : String → Error
not_fifo url = new (String.◌++◌ "queue URL does not end with .fifo: " url)

abbrev invalid_fetch_mode : String → Error
invalid_fetch_mode mode =
    new (String.◌++◌ "invalid fetch mode: " (String.◌++◌ mode ", must be 'single' or 'batch'"))

unfoldable pub ends_with_fifo : String → Bool
ends_with_fifo url = not (ltb (len url) 5 || not (slice url (len url - 5) (len url) == ".fifo"))

or_default : ℕ → ℤ → ℤ
or_default n x = if leb_ℤ x (pos 0) then pos n else x

clamp_batch_size : ℤ → ℤ
clamp_batch_size size =
    if leb_ℤ size (pos 0)
    then pos 10
    else if ltb_ℤ size (pos 2)
    then pos 2
    else if ltb_ℤ (pos 10) size
    then pos 10
    else size

unfoldable pub set_defaults : Config → String → Config
unfolding or_default clamp_batch_size
set_defaults config mode = record config {
  max_messages = or_default 10 config.max_messages;
  visibility_timeout = or_default 30 config.visibility_timeout;
  wait_time_seconds = or_default 20 config.wait_time_seconds;
  fetch_mode = mode;
  batch_size = clamp_batch_size config.batch_size;
  max_prefetch = or_default 50 config.max_prefetch;
}

unfoldable pub make_broker : Config → Broker
make_broker config = record {
  queue_url = config.queue_url;
  config = config;
  active_groups = Dict.empty;
  receive_params = record {
    queue_url = config.queue_url;
    max_number_of_messages = int32 config.max_messages;
    visibility_timeout = int32 config.visibility_timeout;
    wait_time_seconds = int32 config.wait_time_seconds;
    receive_request_attempt_id = "";
  };
}

unfoldable pub new_sqs_fifo_broker : Config → Result Broker
new_sqs_fifo_broker config =
    if config.queue_url == ""
    then err queue_url_empty
    else if not (ends_with_fifo config.queue_url)
    then err (not_fifo config.queue_url)
    else if config.fetch_mode == ""
    then ok (make_broker (set_defaults config "batch"))
    else if not (config.fetch_mode == "single") && not (config.fetch_mode == "batch")
    then err (invalid_fetch_mode config.fetch_mode)
    else ok (make_broker (set_defaults config config.fetch_mode))
