-- ===== src/Broker/Receive/InService.antt =====
-- `ReceiveMessages` of internal/broker/sqs/fifo.go as a part of the service: the steps of the loop that
-- a call of it goes through, and the messages that it returns.
mod Probing
use Prim.Native.String
use celery_to_go.Prelude.{
  ℕ, String, refl, subst, List, [], ◌∷◌, ◌++◌, ◌==◌, Bool-cases, Option-cases, List-cases, inl, inr,
  length,
}
use mathlib.Core.List.{append-nil}
use celery_to_go.Prelude.Int.{ℤ, pos}
use celery_to_go.Prelude.Dict
use celery_to_go.Prelude.Errors.{Reply, Result, ok, err, panic, Reply-cases, Result-cases}
use celery_to_go.Base64.{decode_string}
use celery_to_go.Protocol.Payload.{TaskPayload}
use celery_to_go.Broker.Message.{Message}
use celery_to_go.Broker.Config.{Broker}
use celery_to_go.Broker.Client.{Client, SqsMessage}
use celery_to_go.Broker.Convert.{group_of, to_message, group_messages}
use celery_to_go.Broker.Convert.Batch.{converted, group_messages_lem, group_messages-HasMessages}
use celery_to_go.Broker.Groups.{Groups, get_messages_from_internal_queues, mark_group_as_processing}
use celery_to_go.Broker.Receive.{
  get_available_groups, accept_single, receive_single_message, accept_batch, receive_batch_messages,
  receive_from_sqs, receive_messages, min, batch_limit,
}
use celery_to_go.Worker.Tasks.Accounting
use celery_to_go.Service.{System, stay, next, answer, single, single_illegal}
use celery_to_go.Service.Gives.{
  Distinct, Gives, Gives-nothing, Gives-then, take-Gives, add_groups-Gives, Sorted,
}
use celery_to_go.Broker.Receive.InService.Probing.{get_available_groups-Calls}

-- The messages of a result.
abbrev pub given : Result (List Message) → List Message
given (ok ms) = ms
given (err e) = []
given panic = []

module _ (c : Client) (decode_task : List ℕ → Reply TaskPayload) (tasks : Accounting.System)
    (releasing : List String) where
  open c use {World, now, new_uuid, range_keys, receive_message, change_message_visibility}

  abbrev Calls : Groups → List Message → Groups → Type 0
  Calls = Gives decode_task tasks releasing

  mark_one :
      (groups : Groups) (now : ℕ) (gid : String)
      → Calls groups [] (mark_group_as_processing now groups gid)
  mark_one groups now gid batch accepted returned =
      (accepted, rw (append-nil batch, append-nil returned) (next stay (single_illegal now gid)))

  receive_one :
      (groups : Groups) (now : ℕ) (m : Message)
      → Calls groups (m ∷ []) (mark_group_as_processing now groups m.message_group_id)
  receive_one groups now m batch accepted returned = (
    accepted ++ m ∷ [],
    next (next stay (answer (m ∷ []) refl refl tt)) (single now m [] refl refl),
  )

  accept_single-Calls :
      (ms : List SqsMessage) (b : Broker) (w : World)
      → Calls b.active_groups
          (given (accept_single c ms b w).0)
          (accept_single c ms b w).1.active_groups
  unfolding accept_single to_message
  accept_single-Calls [] b w = Gives-nothing decode_task tasks releasing b.active_groups
  accept_single-Calls (m ∷ ms) b w = elim (Option-cases (group_of m)) [
    | inl unknown ↦
        rw (unknown, accept_single) (Gives-nothing decode_task tasks releasing b.active_groups)
    | inr (gid, own) ↦ elim (Option-cases (decode_string m.body)) [
      | inl bad ↦ rw (own, accept_single, bad) (mark_one b.active_groups _ gid)
      | inr (body, good) ↦
          rw (own, accept_single, good) (receive_one b.active_groups _ (to_message m gid body))
    ]
  ]

  module _ (apart : (w : World) (ks : List String) → Distinct (range_keys w ks)) where
    group_messages-Sorted :
        (ms : List SqsMessage) (order : List String)
        → Sorted order (group_messages ms Dict.empty) (converted ms)
    group_messages-Sorted ms [] = tt
    group_messages-Sorted ms (gid ∷ order) =
        (group_messages_lem ms gid, group_messages-Sorted ms order)

    accept_batch-Calls :
        (ms : List SqsMessage) (b : Broker) (w : World)
        → Calls b.active_groups
            (given (accept_batch c ms b w).0)
            (accept_batch c ms b w).1.active_groups
    unfolding accept_batch
    accept_batch-Calls ms b w =
        let order = range_keys w (Dict.keys (group_messages ms Dict.empty)) in
        add_groups-Gives decode_task tasks releasing (now w) order (group_messages ms Dict.empty)
          b.active_groups (converted ms) (apart w (Dict.keys (group_messages ms Dict.empty)))
          (group_messages-HasMessages ms) (group_messages-Sorted ms order)

    receive_single_message-Calls :
        (b : Broker) (w : World)
        → Calls b.active_groups
            (given (receive_single_message c b w).0)
            (receive_single_message c b w).1.active_groups
    unfolding receive_single_message
    receive_single_message-Calls b w =
        let (available, b₁, w₁) = get_available_groups c b w in
        let before = get_available_groups-Calls c decode_task tasks releasing b w in
        elim (Reply-cases
          (receive_message
            (record b₁.receive_params {
              max_number_of_messages = pos 1;
              receive_request_attempt_id = String.◌++◌ "req-" (new_uuid w₁).0;
            })
            (new_uuid w₁).1).0) [
              | inr (e, lost) ↦ rw (lost, receive_single_message) before
              | inl (ms, got) ↦
                  rw (got, receive_single_message)
                    (Gives-then decode_task tasks releasing b.active_groups _ _ _ _ before
                      (accept_single-Calls ms b₁ _))
            ]

    receive_batch_messages-Calls :
        (max : ℤ) (b : Broker) (w : World)
        → Calls b.active_groups
            (given (receive_batch_messages c max b w).0)
            (receive_batch_messages c max b w).1.active_groups
    unfolding receive_batch_messages
    receive_batch_messages-Calls max b w =
        let (available, b₁, w₁) = get_available_groups c b w in
        let before = get_available_groups-Calls c decode_task tasks releasing b w in
        elim (Reply-cases
          (receive_message
            (record b₁.receive_params {
              max_number_of_messages = batch_limit b₁.config max (length available);
              receive_request_attempt_id = String.◌++◌ "req-" (new_uuid w₁).0;
            })
            (new_uuid w₁).1).0) [
              | inr (e, lost) ↦ rw (lost, receive_batch_messages) before
              | inl (ms, got) ↦
                  rw (got, receive_batch_messages)
                    (Gives-then decode_task tasks releasing b.active_groups _ _ _ _ before
                      (accept_batch-Calls ms b₁ _))
            ]

    receive_from_sqs-Calls :
        (max : ℤ) (b : Broker) (w : World)
        → Calls b.active_groups
            (given (receive_from_sqs c max b w).0)
            (receive_from_sqs c max b w).1.active_groups
    unfolding receive_from_sqs
    receive_from_sqs-Calls max b w = elim (Bool-cases (b.config.fetch_mode == "single")) [
      | inl one_by_one ↦ rw (one_by_one, receive_from_sqs) (receive_single_message-Calls b w)
      | inr in_batches ↦ rw (in_batches, receive_from_sqs) (receive_batch_messages-Calls max b w)
    ]

    -- A call of `ReceiveMessages`, whatever its arguments, the mode of the broker and the answers of
    -- the client, is a run of the service, which returns the same messages; if `range` visits no key of
    -- a map twice.
    pub receive_messages-Calls :
        (max : ℤ) (b : Broker) (w : World)
        → Calls b.active_groups
            (given (receive_messages c max b w).0)
            (receive_messages c max b w).1.active_groups
    unfolding receive_messages
    receive_messages-Calls max b w =
        let order = range_keys w (Dict.keys b.active_groups) in
        let limit = min max b.config.max_prefetch in
        elim (Result-cases
          (get_messages_from_internal_queues (now w) order limit b.active_groups)) [
            | inl ((messages, groups), got) ↦
                let taken : Calls b.active_groups messages groups =
                  take-Gives decode_task tasks releasing (now w) order limit b.active_groups groups
                    messages got in
                elim (List-cases messages) [
                  | inl nothing ↦
                      rw (got, receive_messages, nothing)
                        (Gives-then decode_task tasks releasing b.active_groups groups _ [] _
                          (subst (λ ms. Calls b.active_groups ms groups) nothing taken)
                          (receive_from_sqs-Calls limit (record b { active_groups = groups }) w))
                  | inr (m, ms, something) ↦
                      rw (got, receive_messages, something)
                        (subst (λ l. Calls b.active_groups l groups) something taken)
                ]
            | inr (inl (e, refused)) ↦
                rw (refused, receive_messages)
                  (Gives-nothing decode_task tasks releasing b.active_groups)
            | inr (inr panics) ↦
                rw (panics, receive_messages)
                  (Gives-nothing decode_task tasks releasing b.active_groups)
          ]
