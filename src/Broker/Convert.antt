-- ===== src/Broker/Convert.antt =====
-- The conversion of an SQS message to a `broker.Message`, which internal/broker/sqs/fifo.go writes
-- out in `receiveSingleMessage`, `receiveBatchMessages` and `getAvailableGroups`.
pub mod Batch
mod Examples
use celery_to_go.Prelude.{ℕ, String, Option, none, some, List, [], ◌∷◌, ◌++◌, ◌==◌, if◌then◌else◌}
use celery_to_go.Prelude.Dict
use celery_to_go.Prelude.Dict.{Dict, get-put, get-empty}
use celery_to_go.Base64.{decode_string}
use celery_to_go.Broker.Message.{Message}
use celery_to_go.Broker.Client.{SqsMessage}
use celery_to_go.Broker.Groups.Consistent.{of_group}

abbrev or_empty : Option String → String
or_empty none = ""
or_empty (some s) = s

-- `for k, v := range src { dst[k] = v }`
copy_attributes : List String → Dict String → Dict String → Dict String
copy_attributes [] src dst = dst
copy_attributes (k ∷ ks) src dst =
    copy_attributes ks src (elim (Dict.get src k) [ none ↦ dst | some v ↦ Dict.put dst k v ])

copy_string_values : List String → Dict (Option String) → Dict String → Dict String
copy_string_values [] src dst = dst
copy_string_values (k ∷ ks) src dst = copy_string_values ks src (elim (Dict.get src k) [
  | none ↦ dst
  | some value ↦ elim value [ none ↦ dst | some v ↦ Dict.put dst k v ]
])

pub group_of : SqsMessage → Option String
group_of m = Dict.get m.attributes "MessageGroupId"

-- The body is decoded before.
unfoldable pub to_message : SqsMessage → String → List ℕ → Message
unfolding copy_attributes copy_string_values
to_message m gid body = record {
  id = m.message_id;
  body = body;
  attributes =
      copy_string_values (Dict.keys m.message_attributes) m.message_attributes
        (copy_attributes (Dict.keys m.attributes) m.attributes Dict.empty);
  message_group_id = gid;
  message_deduplication_id = or_empty (Dict.get m.attributes "MessageDeduplicationId");
  receipt_handle = m.receipt_handle;
}

-- One round of the conversion loop of a batch: `none` where it says `continue`.
unfoldable pub convert : SqsMessage → Option Message
unfolding group_of to_message
convert m = elim (group_of m) [
  | none ↦ none
  | some gid ↦ elim (decode_string m.body) [
    | none ↦ none
    | some body ↦ some (to_message m gid body)
  ]
]

abbrev pub or_nil : Option (List Message) → List Message
or_nil none = []
or_nil (some ms) = ms

-- `messagesByGroup`
unfoldable pub group_messages : List SqsMessage → Dict (List Message) → Dict (List Message)
group_messages [] by_group = by_group
group_messages (m ∷ ms) by_group = group_messages ms (elim (convert m) [
  | none ↦ by_group
  | some msg ↦
      Dict.put by_group msg.message_group_id
        (or_nil (Dict.get by_group msg.message_group_id) ++ msg ∷ [])
])
