-- ===== src/Broker/Convert/Examples.antt =====
-- The theorems on the conversion at two concrete messages of one group.
use celery_to_go.Prelude.{◌≡◌, refl, some, [], ◌∷◌}
use celery_to_go.Prelude.Dict
use celery_to_go.Base64.{encode_to_string}
use celery_to_go.Broker.Client.{SqsMessage}
use celery_to_go.Broker.Convert.{group_of, group_messages, or_nil}
use celery_to_go.Broker.Convert.Batch.{converted, group_messages_lem}
use celery_to_go.Broker.Groups.Consistent.{of_group}

abbrev hello : SqsMessage
hello = record {
  message_id = "m1";
  body = "aGk=";
  receipt_handle = "r1";
  attributes = Dict.put Dict.empty "MessageGroupId" "a";
  message_attributes = Dict.empty;
}

abbrev garbled : SqsMessage
garbled = record hello { message_id = "m2"; body = "?" }

hello_group : group_of hello ≡ some "a"
unfolding group_of Dict.get Dict.put Dict.empty
hello_group = refl

hello_body : "aGk=" ≡ encode_to_string (104 ∷ 105 ∷ [])
unfolding encode_to_string
hello_body = refl

group_messages_lem_example :
    or_nil (Dict.get (group_messages (hello ∷ garbled ∷ []) Dict.empty) "a")
    ≡ of_group "a" (converted (hello ∷ garbled ∷ []))
group_messages_lem_example = group_messages_lem (hello ∷ garbled ∷ []) "a"
