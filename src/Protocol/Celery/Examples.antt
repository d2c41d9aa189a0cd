-- ===== src/Protocol/Celery/Examples.antt =====
-- The theorems on the protocol at a codec for one task and one result.
use celery_to_go.Prelude.{◌≡◌, ◌↔◌, refl, true, none, [], ◌∷◌, arith}
use celery_to_go.Prelude.Int.{pos}
use celery_to_go.Prelude.Dict
use celery_to_go.Prelude.Errors.{new, reply, failed}
use celery_to_go.Protocol.Payload.{
  str, nil, cons, no_fields, null, TaskPayload, ResultPayload, Stamp,
}
use celery_to_go.Protocol.Message.{
  BaseMessage, new_base_message, new_result_message, new_task_message, new_ping_message,
  new_pong_message, new_stop_message,
}
use celery_to_go.Protocol.Celery.Format.{CeleryMessage, Json, body_data, map_failed}
use celery_to_go.Protocol.Celery.{
  task_payload_from_celery_message, celery_message_from_task_payload, encode_task, decode_task,
  encode_result, decode_result, json_protocol, encode_stop, encode_ping, decode_pong,
  decode_internal,
}
use celery_to_go.Protocol.Celery.Tasks.{celery_message_round_trip, decode_task-encode_task}
use celery_to_go.Protocol.Celery.Results.{decode_result-encode_result}
use celery_to_go.Protocol.Celery.Control.{ping, pong, encode, decode, answer, decode-encode}
use celery_to_go.Protocol.Celery.Parse.{parsed_result, parse_message, parse_message_iff}

abbrev add : TaskPayload
add = record {
  task_name = "add";
  task_id = "t";
  args = cons (str "x") nil;
  kwargs = no_fields;
  retries = pos 2;
  queue = "tasks";
}

abbrev done : ResultPayload
done = record {
  task_id = "t";
  status = "success";
  result = null;
  error = "";
  traceback = "";
  runtime = 0;
  memory_used = pos 0;
}

abbrev stamp : Stamp
stamp = record { message_id = "u"; timestamp = 7 }

-- It writes the bytes 1, 2 and 3, and reads them back.
abbrev codec : Json
codec = record {
  marshal = λ v. reply (1 ∷ []);
  unmarshal_array = λ bytes. reply (body_data add);
  unmarshal_celery = λ bytes. reply (record {
    body = "";
    content_encoding = "";
    content_type = "";
    headers = Dict.empty;
    properties = Dict.empty;
  });
  unmarshal_type = λ bytes. reply "result";
  marshal_task = λ m. reply (2 ∷ []);
  unmarshal_task = λ bytes. reply (new_task_message stamp add);
  marshal_result = λ m. reply (3 ∷ []);
  unmarshal_result = λ bytes. reply (new_result_message stamp done);
  marshal_ping = λ m. reply (4 ∷ []);
  marshal_pong = λ m. reply (6 ∷ []);
  marshal_stop = λ m. reply (5 ∷ []);
  unmarshal_base = λ bytes. reply (new_base_message "result" stamp);
  unmarshal_ping = λ bytes. reply (new_ping_message stamp);
  unmarshal_pong = λ bytes. reply (new_pong_message stamp "");
  unmarshal_stop = λ bytes. reply (new_stop_message stamp true);
  format_value = λ v. "";
  int_of_float = λ f. pos 0;
  atoi = λ s. none;
}

celery_message_round_trip_example :
    (m : CeleryMessage) × (celery_message_from_task_payload codec add ≡ reply m)
    × (task_payload_from_celery_message codec m ≡ reply add)
celery_message_round_trip_example =
    celery_message_round_trip codec add (1 ∷ []) refl (omega arith, tt) refl

task_written : encode_task codec stamp add ≡ reply (2 ∷ [])
unfolding encode_task map_failed
task_written = refl

decode_task-encode_task_example :
    decode_task codec (2 ∷ []) ≡ failed (new "task name not found in headers")
decode_task-encode_task_example =
    decode_task-encode_task codec stamp add (2 ∷ []) (λ m bytes e. (_, refl, refl)) task_written

result_written : encode_result codec stamp done ≡ reply (3 ∷ [])
unfolding encode_result map_failed
result_written = refl

stop_written : (json_protocol codec).encode_stop stamp ≡ reply (5 ∷ [])
unfolding encode_stop map_failed
stop_written = refl

ping_written : (json_protocol codec).encode_ping stamp ≡ reply (4 ∷ [])
unfolding encode_ping map_failed
ping_written = refl

no_pong : (json_protocol codec).decode_pong [] ≡ failed (new "message is not a pong message")
unfolding decode_pong decode_internal
no_pong = refl

decode_result-encode_result_example : decode_result codec (3 ∷ []) ≡ reply done
unfolding new_result_message new_base_message
decode_result-encode_result_example =
    decode_result-encode_result codec stamp done (3 ∷ []) (λ bytes e. (refl, refl)) result_written

-- It reads every message as a ping.
abbrev ping_codec : Json
ping_codec = record codec { unmarshal_type = λ bytes. reply "ping" }

ping_encoded : encode ping_codec ping stamp ≡ reply (4 ∷ [])
unfolding encode_ping map_failed
ping_encoded = refl

decode-encode_example : decode ping_codec pong (4 ∷ []) ≡ answer ping_codec pong ping
unfolding new_ping_message new_base_message
decode-encode_example =
    decode-encode ping_codec pong ping stamp (4 ∷ []) (λ out e. refl) ping_encoded

parse_message_iff_example :
    (parse_message codec (3 ∷ []) ≡ reply (parsed_result (new_result_message stamp done))) ↔ (
      (base : BaseMessage) × (codec.unmarshal_base (3 ∷ []) ≡ reply base)
      × (base.message_type ≡ "result")
      × (codec.unmarshal_result (3 ∷ []) ≡ reply (new_result_message stamp done)))
parse_message_iff_example =
    parse_message_iff codec (3 ∷ []) (parsed_result (new_result_message stamp done))
