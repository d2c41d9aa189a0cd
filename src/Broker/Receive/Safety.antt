-- ===== src/Broker/Receive/Safety.antt =====
-- `ReceiveMessages` and panics: `make` panics on a negative capacity.
use Prim.Native.String
use celery_to_go.Prelude.{
  ◌≢◌, List, [], ◌∷◌, length, arith, ◌==◌, Bool-cases, Option-cases, List-cases, inl, inr,
}
use celery_to_go.Prelude.Int.{ℤ, pos, ◌≤ℤ◌}
use celery_to_go.Prelude.Dict
use celery_to_go.Prelude.Errors.{panic, Reply-cases, Result-cases}
use celery_to_go.Base64.{decode_string}
use celery_to_go.Broker.Config.{Broker}
use celery_to_go.Broker.Client.{Client, SqsMessage}
use celery_to_go.Broker.Convert.{group_of}
use celery_to_go.Broker.Groups.{get_messages_from_internal_queues}
use celery_to_go.Broker.Groups.Scan.{get_messages_safe}
use celery_to_go.Broker.Receive.{
  accept_single, receive_single_message, accept_batch, receive_batch_messages, receive_from_sqs,
  receive_messages, get_available_groups, batch_limit, min,
}

min_nonnegative : (a b : ℤ) → pos 0 ≤ℤ a → pos 0 ≤ℤ b → pos 0 ≤ℤ min a b
unfolding min
min_nonnegative a b ha hb = ground arith

module _ (c : Client) where
  open c use {World, now, new_uuid, range_keys, receive_message}

  accept_single_safe :
      (ms : List SqsMessage) (b : Broker) (w : World) → (accept_single c ms b w).0 ≢ panic
  unfolding accept_single
  accept_single_safe [] b w = λ e. cc
  accept_single_safe (m ∷ ms) b w = elim (Option-cases (group_of m)) [
    | inl unknown ↦ rw (unknown, accept_single) (λ e. cc)
    | inr (gid, own) ↦ elim (Option-cases (decode_string m.body)) [
      | inl bad ↦ rw (own, accept_single, bad) (λ e. cc)
      | inr (body, good) ↦ rw (own, accept_single, good) (λ e. cc)
    ]
  ]

  receive_single_message_safe : (b : Broker) (w : World) → (receive_single_message c b w).0 ≢ panic
  unfolding receive_single_message
  receive_single_message_safe b w =
      let (_, b₁, w₁) = get_available_groups c b w in
      elim (Reply-cases
        (receive_message
          (record b₁.receive_params {
            max_number_of_messages = pos 1;
            receive_request_attempt_id = String.◌++◌ "req-" (new_uuid w₁).0;
          })
          (new_uuid w₁).1).0) [
            | inr (e, lost) ↦ rw (lost, receive_single_message) (λ e'. cc)
            | inl (ms, got) ↦ rw (got, receive_single_message) (accept_single_safe ms b₁ _)
          ]

  accept_batch_safe :
      (ms : List SqsMessage) (b : Broker) (w : World) → (accept_batch c ms b w).0 ≢ panic
  unfolding accept_batch
  accept_batch_safe ms b w e = cc

  receive_batch_messages_safe :
      (max : ℤ) (b : Broker) (w : World) → (receive_batch_messages c max b w).0 ≢ panic
  unfolding receive_batch_messages
  receive_batch_messages_safe max b w =
      let (available, b₁, w₁) = get_available_groups c b w in
      elim (Reply-cases
        (receive_message
          (record b₁.receive_params {
            max_number_of_messages = batch_limit b₁.config max (length available);
            receive_request_attempt_id = String.◌++◌ "req-" (new_uuid w₁).0;
          })
          (new_uuid w₁).1).0) [
            | inr (e, lost) ↦ rw (lost, receive_batch_messages) (λ e'. cc)
            | inl (ms, got) ↦ rw (got, receive_batch_messages) (accept_batch_safe ms b₁ _)
          ]

  receive_from_sqs_safe :
      (max : ℤ) (b : Broker) (w : World) → (receive_from_sqs c max b w).0 ≢ panic
  unfolding receive_from_sqs
  receive_from_sqs_safe max b w = elim (Bool-cases (b.config.fetch_mode == "single")) [
    | inl single ↦ rw (single, receive_from_sqs) (receive_single_message_safe b w)
    | inr batch ↦ rw (batch, receive_from_sqs) (receive_batch_messages_safe max b w)
  ]

  -- With a limit that is not negative and a prefetch limit that is not negative, `ReceiveMessages` does
  -- not panic, whatever the state of the groups and the answers of the client.
  pub receive_messages_safe :
      (max : ℤ) (b : Broker) (w : World)
      → pos 0 ≤ℤ max
      → pos 0 ≤ℤ b.config.max_prefetch
      → (receive_messages c max b w).0 ≢ panic
  unfolding receive_messages
  receive_messages_safe max b w low prefetch =
      let order = range_keys w (Dict.keys b.active_groups) in
      let limit = min max b.config.max_prefetch in
      elim (Result-cases (get_messages_from_internal_queues (now w) order limit b.active_groups)) [
        | inl ((messages, groups), got) ↦ elim (List-cases messages) [
          | inl nothing ↦
              rw (got, receive_messages, nothing)
                (receive_from_sqs_safe limit (record b { active_groups = groups }) w)
          | inr (m, ms, something) ↦ rw (got, receive_messages, something) (λ e. cc)
        ]
        | inr (inl (x, refused)) ↦ rw (refused, receive_messages) (λ e. cc)
        | inr (inr panics) ↦ absurd (
            get_messages_safe (now w) order limit b.active_groups
              (min_nonnegative max b.config.max_prefetch low prefetch) panics)
      ]
