-- ===== src/Protocol/Celery/Parse.antt =====
-- `ParseMessage` of internal/protocol/message/message.go.
use Prim.Native.String
use celery_to_go.Prelude.{
  ℕ, String, ◌≡◌, ◌↔◌, refl, List, ◌==◌, if◌then◌else◌, eq_iff, inl, inr, arith,
}
use celery_to_go.Prelude.Errors.{Error, new, wrap, Reply, reply, failed, Reply-cases}
use celery_to_go.Protocol.Message.{
  BaseMessage, TaskMessage, ResultMessage, PingMessage, PongMessage, StopMessage,
  internal_task_message, internal_result_message, internal_ping_message, internal_pong_message,
  internal_stop_message,
}
use celery_to_go.Protocol.Celery.Format.{Json}

-- The types of message that `ParseMessage` gives as an `interface{}`.
pub data ParsedMessage : Type 0 where
  parsed_task : TaskMessage → ParsedMessage
  parsed_result : ResultMessage → ParsedMessage
  parsed_ping : PingMessage → ParsedMessage
  parsed_pong : PongMessage → ParsedMessage
  parsed_stop : StopMessage → ParsedMessage

-- One case of the switch.
unfoldable pub parse_case :
    {A : Type 0} → String → (A → ParsedMessage) → Reply A → Reply ParsedMessage
parse_case context message (reply a) = reply (message a)
parse_case context message (failed e) = failed (wrap context e)

module _ (json : Json) where
  unfoldable pub parse_as : String → List ℕ → Reply ParsedMessage
  unfolding parse_case
  parse_as type data_ =
      if type == internal_task_message
      then parse_case "failed to parse task message" parsed_task (json.unmarshal_task data_)
      else if type == internal_result_message
      then parse_case "failed to parse result message" parsed_result (json.unmarshal_result data_)
      else if type == internal_ping_message
      then parse_case "failed to parse ping message" parsed_ping (json.unmarshal_ping data_)
      else if type == internal_pong_message
      then parse_case "failed to parse pong message" parsed_pong (json.unmarshal_pong data_)
      else if type == internal_stop_message
      then parse_case "failed to parse stop message" parsed_stop (json.unmarshal_stop data_)
      else failed (new (String.◌++◌ "unknown message type: " type))

  pub parse_message : List ℕ → Reply ParsedMessage
  unfolding parse_as
  parse_message bytes = elim (json.unmarshal_base bytes) [
    | failed e ↦ failed (wrap "failed to parse message" e)
    | reply base ↦ parse_as base.message_type bytes
  ]

  abbrev pub type_of : ParsedMessage → String
  type_of (parsed_task m) = internal_task_message
  type_of (parsed_result m) = internal_result_message
  type_of (parsed_ping m) = internal_ping_message
  type_of (parsed_pong m) = internal_pong_message
  type_of (parsed_stop m) = internal_stop_message

  -- That encoding/json reads this message as its own type.
  abbrev pub Reads : List ℕ → ParsedMessage → Type 0
  Reads bytes (parsed_task m) = json.unmarshal_task bytes ≡ reply m
  Reads bytes (parsed_result m) = json.unmarshal_result bytes ≡ reply m
  Reads bytes (parsed_ping m) = json.unmarshal_ping bytes ≡ reply m
  Reads bytes (parsed_pong m) = json.unmarshal_pong bytes ≡ reply m
  Reads bytes (parsed_stop m) = json.unmarshal_stop bytes ≡ reply m

  parse_as_complete :
      (bytes : List ℕ) (m : ParsedMessage) → Reads bytes m → parse_as (type_of m) bytes ≡ reply m
  unfolding parse_as parse_case
  parse_as_complete bytes (parsed_task m) e = rw e refl
  parse_as_complete bytes (parsed_result m) e = rw e refl
  parse_as_complete bytes (parsed_ping m) e = rw e refl
  parse_as_complete bytes (parsed_pong m) e = rw e refl
  parse_as_complete bytes (parsed_stop m) e = rw e refl

  parse_as_sound :
      (type : String) (bytes : List ℕ) (m : ParsedMessage)
      → parse_as type bytes ≡ reply m
      → (type ≡ type_of m) × Reads bytes m
  unfolding parse_as parse_case
  parse_as_sound type bytes (parsed_task m) e = ground (arith, eq_iff type "task")
  parse_as_sound type bytes (parsed_result m) e = ground (arith, eq_iff type "result")
  parse_as_sound type bytes (parsed_ping m) e = ground (arith, eq_iff type "ping")
  parse_as_sound type bytes (parsed_pong m) e = ground (arith, eq_iff type "pong")
  parse_as_sound type bytes (parsed_stop m) e = ground (arith, eq_iff type "stop")

  -- `ParseMessage` gives a message exactly if encoding/json reads the base of the text, with the type of
  -- that message, and reads the text as that message.
  pub parse_message_iff :
      (bytes : List ℕ) (m : ParsedMessage)
      → (parse_message bytes ≡ reply m) ↔ (
          (base : BaseMessage) × (json.unmarshal_base bytes ≡ reply base)
          × (base.message_type ≡ type_of m)
          × Reads bytes m)
  unfolding parse_message
  parse_message_iff bytes m = (
    λ e. elim (Reply-cases (json.unmarshal_base bytes)) [
      | inl (base, read) ↦
          let (same, reads) =
            parse_as_sound base.message_type bytes m (rw (read, parse_message) at e) in
          (base, read, same, reads)
      | inr (x, fails) ↦ elim (absurd (rw (fails, parse_message) at e)) [ ]
    ],
    λ (base, read, same, reads). rw (read, parse_message, same) (parse_as_complete bytes m reads),
  )
    where
      absurd : {x : Error} → failed x ≡ reply m → ⊥
      absurd e = cc
