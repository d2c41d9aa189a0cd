-- ===== src/Protocol/Celery.antt =====
-- `JSONProtocol` of internal/protocol/celery/json.go. encoding/json, `fmt.Sprintf("%v", …)`, the
-- conversion of a float64 to an int, and `strconv.Atoi` are parameters. A nil slice or map is an
-- empty one.
pub mod Tasks
pub mod Results
pub mod Control
pub mod Parse
mod Examples
pub mod Format
use celery_to_go.Prelude.{
  ℕ, String, true, false, not, Option, none, some, List, [], ◌∷◌, ◌==◌, if◌then◌else◌,
}
use celery_to_go.Prelude.Int.{ℤ, pos}
use celery_to_go.Prelude.Dict
use celery_to_go.Prelude.Dict.{Dict}
use celery_to_go.Prelude.Errors.{Error, new, wrap, Reply, reply, failed}
use celery_to_go.Base64.{encode_to_string, decode_string}
use celery_to_go.Protocol.Payload.{
  Value, null, bool, float, int, str, arr, obj, Items, nil, cons, Fields, no_fields, field,
  TaskPayload, ResultPayload, Stamp, Protocol,
}
use celery_to_go.Protocol.Message.{
  BaseMessage, new_base_message, TaskMessage, new_task_message, task_payload, ResultMessage,
  new_result_message, result_payload, StopMessage, new_stop_message, new_ping_message,
  new_pong_message, internal_task_message, internal_result_message, internal_ping_message,
  internal_pong_message, internal_stop_message,
}
use celery_to_go.Protocol.Celery.Format.{
  CeleryMessage, Json, find_field, as_string, zero_or, items_or_empty, fields_or_empty, map_failed,
  routing_key, delivery_info, body_parts, options, body_data,
}

module _ (json : Json) where
  pub retries_of : Option Value → ℤ
  unfolding zero_or
  retries_of (some (float f)) = json.int_of_float f
  retries_of (some (int n)) = n
  retries_of (some (str s)) = zero_or (json.atoi s)
  retries_of _ = pos 0

  pub parse_body : String → Reply (Items × Fields)
  unfolding body_parts
  parse_body body = elim (decode_string body) [
    | none ↦ failed (wrap "failed to decode body" (new "illegal base64 data"))
    | some bytes ↦ elim (json.unmarshal_array bytes) [
      | failed e ↦ failed (wrap "failed to parse body" e)
      | reply items ↦ elim (body_parts items) [
        | none ↦ failed (new "invalid body format")
        | some parts ↦ reply parts
      ]
    ]
  ]

  pub task_payload_from_celery_message : CeleryMessage → Reply TaskPayload
  unfolding as_string retries_of routing_key parse_body
  task_payload_from_celery_message message = elim (as_string (Dict.get message.headers "task")) [
    | none ↦ failed (new "task name not found in headers")
    | some task_name ↦ elim (as_string (Dict.get message.headers "id")) [
      | none ↦ failed (new "task ID not found in headers")
      | some task_id ↦ elim (parse_body message.body) [
        | failed e ↦ failed e
        | reply (args, kwargs) ↦ reply (record {
          task_name = task_name;
          task_id = task_id;
          args = args;
          kwargs = kwargs;
          retries = retries_of (Dict.get message.headers "retries");
          queue = routing_key (Dict.get message.properties "delivery_info");
        })
      ]
    ]
  ]

  pub headers_of : TaskPayload → Dict Value
  headers_of payload =
      Dict.put
        (Dict.put
          (Dict.put
            (Dict.put
              (Dict.put
                (Dict.put
                  (Dict.put (Dict.put Dict.empty "task" (str payload.task_name)) "id"
                    (str payload.task_id))
                  "retries" (int payload.retries))
                "lang" (str "py"))
              "root_id" (str payload.task_id))
            "origin" (str "celery-go-worker"))
          "argsrepr" (str (json.format_value (arr payload.args))))
        "kwargsrepr" (str (json.format_value (obj payload.kwargs)))

  pub properties_of : TaskPayload → Dict Value
  unfolding delivery_info
  properties_of payload = delivery_info payload.queue (
      Dict.put
        (Dict.put
          (Dict.put (Dict.put Dict.empty "correlation_id" (str payload.task_id)) "delivery_mode"
            (int (pos 2)))
          "priority" (int (pos 0)))
        "body_encoding" (str "base64"))

  pub celery_message_from_task_payload : TaskPayload → Reply CeleryMessage
  unfolding headers_of properties_of
  celery_message_from_task_payload payload = elim (json.marshal (arr (body_data payload))) [
    | failed e ↦ failed (wrap "failed to encode body" e)
    | reply bytes ↦ reply (record {
      body = encode_to_string bytes;
      content_encoding = "utf-8";
      content_type = "application/json";
      headers = headers_of payload;
      properties = properties_of payload;
    })
  ]

  pub encode_task : Stamp → TaskPayload → Reply (List ℕ)
  unfolding map_failed
  encode_task s payload =
      map_failed "failed to encode task message" (json.marshal_task (new_task_message s payload))

  -- An internal message of the wanted type, by its reader.
  pub decode_internal : {A : Type 0} → String → String → (List ℕ → Reply A) → List ℕ → Reply A
  decode_internal wanted refusal read bytes = elim (json.unmarshal_type bytes) [
    | failed e ↦ failed (wrap "failed to parse message" e)
    | reply msg_type ↦ if msg_type == wanted then read bytes else failed (new refusal)
  ]

  pub read_task : List ℕ → Reply TaskPayload
  read_task bytes = elim (json.unmarshal_task bytes) [
    | failed e ↦ failed (wrap "failed to parse task message" e)
    | reply message ↦ reply (task_payload message)
  ]

  pub decode_task : List ℕ → Reply TaskPayload
  unfolding decode_internal read_task
  decode_task bytes = elim (json.unmarshal_celery bytes) [
    | reply message ↦ task_payload_from_celery_message message
    | failed _ ↦
        decode_internal internal_task_message "message is not a task message" read_task bytes
  ]

  pub encode_result : Stamp → ResultPayload → Reply (List ℕ)
  unfolding map_failed
  encode_result s payload =
      map_failed "failed to encode result message"
        (json.marshal_result (new_result_message s payload))

  pub read_result : List ℕ → Reply ResultPayload
  read_result bytes = elim (json.unmarshal_result bytes) [
    | failed e ↦ failed (wrap "failed to parse result message" e)
    | reply message ↦ reply (result_payload message)
  ]

  pub decode_result : List ℕ → Reply ResultPayload
  unfolding decode_internal read_result
  decode_result bytes =
      decode_internal internal_result_message "message is not a result message" read_result bytes

  pub encode_ping : Stamp → Reply (List ℕ)
  unfolding map_failed
  encode_ping s =
      map_failed "failed to encode ping message" (json.marshal_ping (new_ping_message s))

  pub decode_pong : List ℕ → Reply (Unit {0})
  unfolding decode_internal
  decode_pong bytes =
      decode_internal internal_pong_message "message is not a pong message" (λ _. reply tt) bytes

  pub encode_stop : Stamp → Reply (List ℕ)
  unfolding map_failed
  encode_stop s =
      map_failed "failed to encode stop message" (json.marshal_stop (new_stop_message s true))

  pub decode_ping : List ℕ → Reply (Unit {0})
  unfolding decode_internal
  decode_ping bytes =
      decode_internal internal_ping_message "message is not a ping message" (λ _. reply tt) bytes

  pub encode_pong : Stamp → Reply (List ℕ)
  unfolding map_failed
  encode_pong s =
      map_failed "failed to encode pong message" (json.marshal_pong (new_pong_message s ""))

  pub decode_stop : List ℕ → Reply (Unit {0})
  unfolding decode_internal
  decode_stop bytes =
      decode_internal internal_stop_message "message is not a stop message" (λ _. reply tt) bytes

  -- What the pool uses.
  abbrev pub json_protocol : Protocol
  json_protocol = record {
    encode_task = encode_task;
    decode_result = decode_result;
    encode_ping = encode_ping;
    decode_pong = decode_pong;
    encode_stop = encode_stop;
  }
