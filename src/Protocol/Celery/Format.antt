-- ===== src/Protocol/Celery/Format.antt =====
-- The Celery message and its parts, of internal/protocol/protocol.go and internal/protocol/celery/json.go.
use celery_to_go.Prelude.{ℕ, String, Option, none, some, List, ◌==◌, if◌then◌else◌}
use celery_to_go.Prelude.Int.{ℤ, pos}
use celery_to_go.Prelude.Dict
use celery_to_go.Prelude.Dict.{Dict}
use celery_to_go.Prelude.Errors.{wrap, Reply, reply, failed}
use celery_to_go.Protocol.Payload.{
  Value, null, str, arr, obj, Items, nil, cons, Fields, no_fields, field, TaskPayload,
}
use celery_to_go.Protocol.Message.{
  BaseMessage, TaskMessage, ResultMessage, StopMessage, PingMessage, PongMessage,
}

pub record CeleryMessage : Type 0 where
  pub body : String
  pub content_encoding : String
  pub content_type : String
  pub headers : Dict Value
  pub properties : Dict Value

-- `unmarshal_type` reads only the key "type", and an absent one as "".
pub record Json : Type 0 where
  pub marshal : Value → Reply (List ℕ)
  pub unmarshal_array : List ℕ → Reply Items
  pub unmarshal_celery : List ℕ → Reply CeleryMessage
  pub unmarshal_type : List ℕ → Reply String
  pub marshal_task : TaskMessage → Reply (List ℕ)
  pub unmarshal_task : List ℕ → Reply TaskMessage
  pub marshal_result : ResultMessage → Reply (List ℕ)
  pub unmarshal_result : List ℕ → Reply ResultMessage
  pub marshal_ping : PingMessage → Reply (List ℕ)
  pub marshal_pong : PongMessage → Reply (List ℕ)
  pub marshal_stop : StopMessage → Reply (List ℕ)
  pub unmarshal_base : List ℕ → Reply BaseMessage
  pub unmarshal_ping : List ℕ → Reply PingMessage
  pub unmarshal_pong : List ℕ → Reply PongMessage
  pub unmarshal_stop : List ℕ → Reply StopMessage
  pub format_value : Value → String
  pub int_of_float : ℕ → ℤ
  pub atoi : String → Option ℤ

-- `m[key]` of a map that is a value.
unfoldable pub find_field : String → Fields → Option Value
find_field key no_fields = none
find_field key (field k v fs) = let rest = find_field key fs in if k == key then some v else rest

-- `v.(string)`
unfoldable pub as_string : Option Value → Option String
as_string (some (str s)) = some s
as_string _ = none

unfoldable pub zero_or : Option ℤ → ℤ
zero_or none = pos 0
zero_or (some n) = n

unfoldable pub items_or_empty : Value → Items
items_or_empty (arr xs) = xs
items_or_empty _ = nil

unfoldable pub fields_or_empty : Value → Fields
fields_or_empty (obj fs) = fs
fields_or_empty _ = no_fields

-- `fmt.Errorf("context: %w", err)` on a failure.
unfoldable pub map_failed : {A : Type 0} → String → Reply A → Reply A
map_failed context (reply a) = reply a
map_failed context (failed e) = failed (wrap context e)

unfoldable pub routing_key : Option Value → String
unfolding find_field as_string
routing_key (some (obj info)) = elim (as_string (find_field "routing_key" info)) [
  | some key ↦ key
  | none ↦ ""
]
routing_key _ = ""

unfoldable pub delivery_info : String → Dict Value → Dict Value
delivery_info queue properties =
    if queue == ""
    then properties
    else Dict.put properties "delivery_info"
        (obj (field "exchange" (str "") (field "routing_key" (str queue) no_fields)))

-- The elements of the body: `none` where there are fewer than two.
unfoldable pub body_parts : Items → Option (Items × Fields)
unfolding items_or_empty fields_or_empty
body_parts nil = none
body_parts (cons a nil) = none
body_parts (cons a (cons b rest)) = some (items_or_empty a, fields_or_empty b)

abbrev pub options : Value
options = obj (
    field "callbacks" null
      (field "errbacks" null (field "chain" null (field "chord" null no_fields))))

abbrev pub body_data : TaskPayload → Items
body_data payload = cons (arr payload.args) (cons (obj payload.kwargs) (cons options nil))
