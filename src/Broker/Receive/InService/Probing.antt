-- ===== src/Broker/Receive/InService/Probing.antt =====
-- `getAvailableGroups` of internal/broker/sqs/fifo.go as a part of the service: what it does with the
-- messages of a probe, when no group is idle.
use Prim.Native.String
use celery_to_go.Prelude.{
  ℕ, String, refl, sym, subst, ◌≡◌, List, [], ◌∷◌, ◌++◌, Bool-cases, Option-cases, List-cases, inl,
  inr,
}
use mathlib.Core.List.{append-nil}
use celery_to_go.Prelude.Int.{pos}
use celery_to_go.Prelude.Dict
use celery_to_go.Prelude.Errors.{Reply, Reply-cases}
use celery_to_go.Base64.{decode_string}
use celery_to_go.Protocol.Payload.{TaskPayload}
use celery_to_go.Broker.Message.{Message}
use celery_to_go.Broker.Config.{Broker}
use celery_to_go.Broker.Client.{Client, SqsMessage}
use celery_to_go.Broker.Convert.{group_of, to_message, convert}
use celery_to_go.Broker.Convert.Batch.{converted}
use celery_to_go.Broker.Groups.{Groups, is_processing, idle_groups}
use celery_to_go.Broker.Receive.{probe_message, probe_messages, probe_groups, get_available_groups}
use celery_to_go.Worker.Tasks.Accounting
use celery_to_go.Service.{System, stay, next, answer_probe, probe, probe_busy}
use celery_to_go.Service.Gives.{Runs, Runs-then, asking, Gives, Gives-nothing}

converted-cons :
    (m : SqsMessage) (ms : List SqsMessage)
    → converted (m ∷ ms) ≡ converted (m ∷ []) ++ converted ms
unfolding converted
converted-cons m ms = elim (Option-cases (convert m)) [
  | inl dropped ↦ rw (dropped, converted) refl
  | inr (msg, kept) ↦ rw (kept, converted) refl
]

module _ (c : Client) (decode_task : List ℕ → Reply TaskPayload) (tasks : Accounting.System)
    (releasing : List String) where
  open c use {World, now, new_uuid, range_keys, receive_message, change_message_visibility}

  abbrev On : System → System → Type 0
  On = Runs decode_task tasks releasing

  abbrev in_state :
      Groups → List Message → List Message → List Message → List Message → List Message → System
  in_state = asking decode_task tasks releasing

  abbrev Calls : Groups → List Message → Groups → Type 0
  Calls = Gives decode_task tasks releasing

  probe_message-Runs :
      (m : SqsMessage) (available : List String) (b : Broker) (w : World)
      (rest batch accepted returned : List Message)
      → (accepted' : List Message) × On
          (in_state b.active_groups (converted (m ∷ []) ++ rest) [] batch accepted returned)
          (in_state
            (probe_message c m available b w).1.active_groups
            rest
            []
            batch
            accepted'
            returned)
  unfolding probe_message converted convert to_message
  probe_message-Runs m available b w rest batch accepted returned =
      elim (Option-cases (group_of m)) [
        | inl unknown ↦ rw (unknown, probe_message, converted, convert) (accepted, stay)
        | inr (gid, own) ↦ elim (Option-cases (decode_string m.body)) [
          | inl bad ↦ elim (Bool-cases (is_processing b.active_groups gid)) [
            | inl busy ↦ rw (own, probe_message, converted, convert, busy, bad) (accepted, stay)
            | inr idle ↦ rw (own, probe_message, converted, convert, idle, bad) (accepted, stay)
          ]
          | inr (body, good) ↦ elim (Bool-cases (is_processing b.active_groups gid)) [
            | inl busy ↦
                rw (own, probe_message, converted, convert, busy, good)
                  (accepted, next stay (probe_busy (to_message m gid body) rest refl refl busy))
            | inr idle ↦
                rw (own, probe_message, converted, convert, idle, good)
                  (
                    accepted ++ to_message m gid body ∷ [],
                    next stay (probe _ (to_message m gid body) rest refl refl idle),
                  )
          ]
        ]
      ]

  from_equal :
      (groups : Groups) (probed probed' batch accepted returned : List Message) {t : System}
      → probed ≡ probed'
      → On (in_state groups probed' [] batch accepted returned) t
      → On (in_state groups probed [] batch accepted returned) t
  from_equal groups probed probed' batch accepted returned {t} e =
      subst (λ l. On (in_state groups l [] batch accepted returned) t) (sym e)

  probe_messages-Runs :
      (ms : List SqsMessage) (available : List String) (b : Broker) (w : World)
      (batch accepted returned : List Message)
      → (accepted' : List Message) × On
          (in_state b.active_groups (converted ms) [] batch accepted returned)
          (in_state
            (probe_messages c ms available b w).1.active_groups
            []
            []
            batch
            accepted'
            returned)
  unfolding probe_messages converted
  probe_messages-Runs [] available b w batch accepted returned = (accepted, stay)
  probe_messages-Runs (m ∷ ms) available b w batch accepted returned =
      let (available', b', w') = probe_message c m available b w in
      let (accepted', r) =
        probe_message-Runs m available b w (converted ms) batch accepted returned in
      let (accepted'', r') = probe_messages-Runs ms available' b' w' batch accepted' returned in
      (
        accepted'',
        from_equal b.active_groups _ _ batch accepted returned (converted-cons m ms)
            (Runs-then decode_task tasks releasing r r'),
      )

  probing :
      (ms : List SqsMessage) (b : Broker) (w : World)
      → Calls b.active_groups [] (probe_messages c ms [] b w).1.active_groups
  probing ms b w batch accepted returned =
      let (accepted', r) = probe_messages-Runs ms [] b w batch accepted returned in
      (
        accepted',
        rw (append-nil batch, append-nil returned)
            (Runs-then decode_task tasks releasing
              (next stay (answer_probe (converted ms) refl refl tt)) r),
      )

  probe_groups-Calls :
      (b : Broker) (w : World) → Calls b.active_groups [] (probe_groups c b w).1.active_groups
  unfolding probe_groups
  probe_groups-Calls b w =
      let request = record b.receive_params {
        max_number_of_messages = pos 1;
        visibility_timeout = pos 1;
        receive_request_attempt_id = String.◌++◌ "probe-" (new_uuid w).0;
      } in
      elim (Reply-cases (receive_message request (new_uuid w).1).0) [
        | inr (e, lost) ↦
            rw (lost, probe_groups) (Gives-nothing decode_task tasks releasing b.active_groups)
        | inl (ms, got) ↦
            rw (got, probe_groups) (probing ms b (receive_message request (new_uuid w).1).1)
      ]

  pub get_available_groups-Calls :
      (b : Broker) (w : World)
      → Calls b.active_groups [] (get_available_groups c b w).1.active_groups
  unfolding get_available_groups
  get_available_groups-Calls b w =
      elim (List-cases (idle_groups b.active_groups (range_keys w (Dict.keys b.active_groups)))) [
        | inl no_group ↦ rw (no_group, get_available_groups) (probe_groups-Calls b w)
        | inr (gid, gids, some_group) ↦
            rw (some_group, get_available_groups)
              (Gives-nothing decode_task tasks releasing b.active_groups)
      ]
