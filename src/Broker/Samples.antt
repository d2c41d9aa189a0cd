-- ===== src/Broker/Samples.antt =====
-- Test data of the broker: a client that always delivers one message, and a broker with one group,
-- which is being processed while a message waits.
use celery_to_go.Prelude.{ℕ, ◌+◌, refl, true, none, [], ◌∷◌, arith}
use celery_to_go.Prelude.Int.{pos}
use celery_to_go.Prelude.Dict
use celery_to_go.Prelude.Dict.{get-empty}
use celery_to_go.Prelude.Errors.{reply}
use celery_to_go.Broker.Message.{Message}
use celery_to_go.Broker.Config.{Config, Broker}
use celery_to_go.Broker.Client.{Client}
use celery_to_go.Broker.Groups.{MessageGroupQueue}
use celery_to_go.Broker.Groups.Consistent.{IsConsistent, put-IsConsistent}
use celery_to_go.Broker.Groups.Stuck.{IsStuck}

-- The state of the outside world is the clock.
abbrev pub sqs : Client
sqs = record {
  World = ℕ;
  now = λ w. w;
  new_uuid = λ w. ("u", w);
  range_keys = λ w keys. keys;
  get_queue_attributes = λ url w. (none, w);
  receive_message = λ input w. (
    reply (
        record {
          message_id = "m2";
          body = "aGk=";
          receipt_handle = "r2";
          attributes = Dict.put Dict.empty "MessageGroupId" "a";
          message_attributes = Dict.empty;
        }
        ∷ []),
    w + 1,
  );
  delete_message = λ url handle w. (none, w);
  send_message = λ input w. (none, w);
  change_message_visibility = λ input w. (none, w);
}

abbrev pub waiting : Message
waiting = record {
  id = "m1";
  body = [];
  attributes = Dict.empty;
  message_group_id = "a";
  message_deduplication_id = "m1";
  receipt_handle = "r1";
}

abbrev pub busy_group : MessageGroupQueue
busy_group = record { group_id = "a"; processing = true; last_access = 1; tasks = waiting ∷ [] }

abbrev pub config : Config
config = record {
  queue_url = "tasks.fifo";
  region = "";
  endpoint = "";
  max_messages = pos 10;
  visibility_timeout = pos 30;
  wait_time_seconds = pos 20;
  fetch_mode = "batch";
  batch_size = pos 10;
  max_prefetch = pos 50;
}

abbrev pub broker : Broker
broker = record {
  queue_url = "tasks.fifo";
  config = config;
  active_groups = Dict.put Dict.empty "a" busy_group;
  receive_params = record {
    queue_url = "tasks.fifo";
    max_number_of_messages = pos 10;
    visibility_timeout = pos 30;
    wait_time_seconds = pos 20;
    receive_request_attempt_id = "";
  };
}

empty-IsConsistent : IsConsistent Dict.empty
empty-IsConsistent = record {
  at = λ gid group found. absurd (ground (arith, get-empty {V = MessageGroupQueue} gid));
}

pub broker-IsConsistent : IsConsistent broker.active_groups
broker-IsConsistent = put-IsConsistent Dict.empty "a" busy_group empty-IsConsistent refl (refl, tt)

pub broker-IsStuck : IsStuck "a" waiting [] broker.active_groups
unfolding Dict.get Dict.put Dict.empty
broker-IsStuck = record { group = busy_group; rest = []; found = refl; busy = refl; waiting = refl }
