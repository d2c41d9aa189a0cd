-- ===== src/Broker/Receive.antt =====
-- `ReceiveMessages`, `receiveSingleMessage`, `receiveBatchMessages` and `getAvailableGroups` of
-- internal/broker/sqs/fifo.go. Each takes the broker and the outside world, and gives them back
-- beside its results. Logging is left out.
pub mod Limits
pub mod Safety
pub mod InService
mod Examples
use Prim.Native.String
use celery_to_go.Prelude.{
  ℕ, String, true, false, Option, none, some, List, [], ◌∷◌, ◌++◌, length, ltb, ◌==◌, if◌then◌else◌,
}
use celery_to_go.Prelude.Int.{ℤ, pos, ltb_ℤ, int32}
use celery_to_go.Prelude.Dict
use celery_to_go.Prelude.Dict.{Dict}
use celery_to_go.Prelude.Errors.{Error, new, wrap, Result, ok, err, panic, reply, failed}
use celery_to_go.Base64.{decode_string}
use celery_to_go.Broker.Message.{Message}
use celery_to_go.Broker.Config.{Config, Broker}
use celery_to_go.Broker.Client.{Client, SqsMessage}
use celery_to_go.Broker.Groups.{
  Groups, get_messages_from_internal_queues, add_messages_to_group, mark_group_as_processing,
  idle_groups, is_processing, add_probed_message,
}
use celery_to_go.Broker.Convert.{group_of, to_message, group_messages}

unfoldable pub min : ℤ → ℤ → ℤ
min a b = if ltb_ℤ a b then a else b

-- The error of package base64; its text names a position, which is left out.
abbrev pub illegal_base64 : Error
illegal_base64 = new "illegal base64 data"

-- `for groupID, groupMessages := range messagesByGroup`
unfoldable pub add_groups :
    ℕ → List String → Dict (List Message) → Groups → List Message → List Message × Groups
add_groups now [] by_group groups messages = (messages, groups)
add_groups now (gid ∷ order) by_group groups messages = elim (Dict.get by_group gid) [
  | none ↦ add_groups now order by_group groups messages
  | some ms ↦
      add_groups now order by_group (add_messages_to_group now groups gid ms)
        (elim ms [ [] ↦ messages | m ∷ _ ↦ messages ++ m ∷ [] ])
]

-- `MaxNumberOfMessages` of a batch.
unfoldable pub batch_limit : Config → ℤ → ℕ → ℤ
unfolding min
batch_limit config max available =
    let batch_size = min config.batch_size max in
    if ltb 0 available then int32 (min batch_size (pos available)) else int32 batch_size

module _ (c : Client) where
  open c use {World, now, new_uuid, range_keys, receive_message, change_message_visibility}

  probe_message : SqsMessage → List String → Broker → World → List String × Broker × World
  probe_message m available b w = elim (group_of m) [
    | none ↦ (available, b, w)
    | some gid ↦ elim (is_processing b.active_groups gid) [
      | true ↦ (available, b, w)
      | false ↦
          let (_, w') =
            change_message_visibility
              (record {
                queue_url = b.queue_url;
                receipt_handle = m.receipt_handle;
                visibility_timeout = b.receive_params.visibility_timeout;
              })
              w in
          elim (decode_string m.body) [
            | none ↦ (available ++ gid ∷ [], b, w')
            | some body ↦ (
              available ++ gid ∷ [],
              record b {
                active_groups =
                    add_probed_message (now w') b.active_groups gid (to_message m gid body);
              },
              w',
            )
          ]
    ]
  ]

  probe_messages : List SqsMessage → List String → Broker → World → List String × Broker × World
  unfolding probe_message
  probe_messages [] available b w = (available, b, w)
  probe_messages (m ∷ ms) available b w =
      let (available', b', w') = probe_message m available b w in probe_messages ms available' b' w'

  probe_groups : Broker → World → List String × Broker × World
  unfolding probe_messages
  probe_groups b w =
      let (id, w₁) = new_uuid w in
      let (result, w₂) =
        receive_message
          (record b.receive_params {
            max_number_of_messages = pos 1;
            visibility_timeout = pos 1;
            receive_request_attempt_id = String.◌++◌ "probe-" id;
          })
          w₁ in
      elim result [ failed _ ↦ ([], b, w₂) | reply ms ↦ probe_messages ms [] b w₂ ]

  pub get_available_groups : Broker → World → List String × Broker × World
  unfolding probe_groups
  get_available_groups b w =
      elim (idle_groups b.active_groups (range_keys w (Dict.keys b.active_groups))) [
        | [] ↦ probe_groups b w
        | gid ∷ gids ↦ (gid ∷ gids, b, w)
      ]

  accept_single : List SqsMessage → Broker → World → Result (List Message) × Broker × World
  accept_single [] b w = (ok [], b, w)
  accept_single (m ∷ _) b w = elim (group_of m) [
    | none ↦ (ok [], b, w)
    | some gid ↦
        let b' = record b {
          active_groups = mark_group_as_processing (now w) b.active_groups gid;
        } in
        elim (decode_string m.body) [
          | none ↦ (err (wrap "failed to decode message body" illegal_base64), b', w)
          | some body ↦ (ok (to_message m gid body ∷ []), b', w)
        ]
  ]

  pub receive_single_message : Broker → World → Result (List Message) × Broker × World
  unfolding accept_single
  receive_single_message b w =
      let (_, b₁, w₁) = get_available_groups b w in
      let (id, w₂) = new_uuid w₁ in
      let (result, w₃) =
        receive_message
          (record b₁.receive_params {
            max_number_of_messages = pos 1;
            receive_request_attempt_id = String.◌++◌ "req-" id;
          })
          w₂ in
      elim result [
        | failed e ↦ (err (wrap "failed to receive message from SQS" e), b₁, w₃)
        | reply ms ↦ accept_single ms b₁ w₃
      ]

  accept_batch : List SqsMessage → Broker → World → Result (List Message) × Broker × World
  accept_batch ms b w =
      let by_group = group_messages ms Dict.empty in
      let (messages, groups) =
        add_groups (now w) (range_keys w (Dict.keys by_group)) by_group b.active_groups [] in
      (ok messages, record b { active_groups = groups }, w)

  pub receive_batch_messages : ℤ → Broker → World → Result (List Message) × Broker × World
  unfolding accept_batch
  receive_batch_messages max b w =
      let (available, b₁, w₁) = get_available_groups b w in
      let (id, w₂) = new_uuid w₁ in
      let (result, w₃) =
        receive_message
          (record b₁.receive_params {
            max_number_of_messages = batch_limit b₁.config max (length available);
            receive_request_attempt_id = String.◌++◌ "req-" id;
          })
          w₂ in
      elim result [
        | failed e ↦ (err (wrap "failed to receive messages from SQS" e), b₁, w₃)
        | reply ms ↦ accept_batch ms b₁ w₃
      ]

  receive_from_sqs : ℤ → Broker → World → Result (List Message) × Broker × World
  receive_from_sqs max b w =
      let batch = receive_batch_messages max b w in
      if b.config.fetch_mode == "single" then receive_single_message b w else batch

  pub receive_messages : ℤ → Broker → World → Result (List Message) × Broker × World
  unfolding receive_from_sqs
  receive_messages max b w =
      let limit = min max b.config.max_prefetch in
      let order = range_keys w (Dict.keys b.active_groups) in
      elim (get_messages_from_internal_queues (now w) order limit b.active_groups) [
        | panic ↦ (panic, b, w)
        | err e ↦ (err e, b, w)
        | ok (messages, groups) ↦
            let b' = record b { active_groups = groups } in
            elim messages [ [] ↦ receive_from_sqs limit b' w | m ∷ ms ↦ (ok (m ∷ ms), b', w) ]
      ]
