-- ===== src/Protocol/Celery/Tasks.antt =====
-- Tasks through the Celery message format and through the internal one.
use celery_to_go.Prelude.{
  ℕ, ◌<◌, String, ◌≡◌, refl, sym, ap, ◌∙◌, none, some, List, All, arith, Bool-cases, inl, inr, ◌==◌,
  eq_iff,
}
use celery_to_go.Prelude.Dict
use celery_to_go.Prelude.Dict.{get-put, get-empty}
use celery_to_go.Prelude.Errors.{new, reply, failed, Reply-cases}
use celery_to_go.Base64.{encode_to_string}
use celery_to_go.Base64.RoundTrip.{decode_string-encode_to_string}
use celery_to_go.Protocol.Payload.{Value, int, str, arr, TaskPayload, Stamp}
use celery_to_go.Protocol.Message.{TaskMessage, new_task_message}
use celery_to_go.Protocol.Celery.Format.{
  CeleryMessage, Json, body_data, delivery_info, routing_key, body_parts, as_string, map_failed,
  find_field, items_or_empty, fields_or_empty,
}
use celery_to_go.Protocol.Celery.{
  headers_of, properties_of, parse_body, retries_of, task_payload_from_celery_message,
  celery_message_from_task_payload, encode_task, decode_task,
}

routed :
    (queue : String) (d : Dict.Dict Value)
    → Dict.get d "delivery_info" ≡ none
    → routing_key (Dict.get (delivery_info queue d) "delivery_info") ≡ queue
unfolding delivery_info routing_key find_field as_string
routed queue d unset = elim (Bool-cases (queue == "")) [
  | inl no_queue ↦ rw (no_queue, unset) (sym ((eq_iff queue "").0 no_queue))
  | inr some_queue ↦ rw (some_queue, get-put) refl
]

module _ (json : Json) where
  unfoldable celery_message : TaskPayload → List ℕ → CeleryMessage
  celery_message p bytes = record {
    body = encode_to_string bytes;
    content_encoding = "utf-8";
    content_type = "application/json";
    headers = headers_of json p;
    properties = properties_of json p;
  }

  header-task : (p : TaskPayload) → Dict.get (headers_of json p) "task" ≡ some (str p.task_name)
  unfolding headers_of
  header-task p = simp get-put refl

  header-id : (p : TaskPayload) → Dict.get (headers_of json p) "id" ≡ some (str p.task_id)
  unfolding headers_of
  header-id p = simp get-put refl

  header-retries : (p : TaskPayload) → Dict.get (headers_of json p) "retries" ≡ some (int p.retries)
  unfolding headers_of
  header-retries p = simp get-put refl

  queue_kept :
      (p : TaskPayload) → routing_key (Dict.get (properties_of json p) "delivery_info") ≡ p.queue
  unfolding properties_of
  queue_kept p = routed p.queue _ (simp (get-put, get-empty) refl)

  parse_body_kept :
      (p : TaskPayload) (bytes : List ℕ)
      → All (λ b. b < 256) bytes
      → json.unmarshal_array bytes ≡ reply (body_data p)
      → parse_body json (encode_to_string bytes) ≡ reply (p.args, p.kwargs)
  unfolding parse_body body_parts items_or_empty fields_or_empty
  parse_body_kept p bytes small read =
      rw (decode_string-encode_to_string bytes small, parse_body, read) refl

  payload_kept :
      (p : TaskPayload) (bytes : List ℕ)
      → All (λ b. b < 256) bytes
      → json.unmarshal_array bytes ≡ reply (body_data p)
      → task_payload_from_celery_message json (celery_message p bytes) ≡ reply p
  unfolding task_payload_from_celery_message as_string retries_of celery_message
  payload_kept p bytes small read =
      rw
        (
          header-task p,
          task_payload_from_celery_message,
          header-id p,
          parse_body_kept p bytes small read,
          header-retries p,
          queue_kept p,
        )
        refl

  -- A task that is put into a Celery message is read back from it unchanged, if the JSON of its
  -- arguments is bytes that encoding/json reads back as the same arguments.
  pub celery_message_round_trip :
      (p : TaskPayload) (bytes : List ℕ)
      → json.marshal (arr (body_data p)) ≡ reply bytes
      → All (λ b. b < 256) bytes
      → json.unmarshal_array bytes ≡ reply (body_data p)
      → (m : CeleryMessage) × (celery_message_from_task_payload json p ≡ reply m)
        × (task_payload_from_celery_message json m ≡ reply p)
  unfolding celery_message_from_task_payload celery_message
  celery_message_round_trip p bytes written small read = (
    celery_message p bytes,
    rw (written, celery_message_from_task_payload) refl,
    payload_kept p bytes small read,
  )

  -- encoding/json reads an internal task message, an object without the keys of a Celery message,
  -- into a Celery message whose headers are empty.
  abbrev pub IgnoresKeys : Type 0
  IgnoresKeys =
      (m : TaskMessage) (bytes : List ℕ)
      → json.marshal_task m ≡ reply bytes
      → (c : CeleryMessage) × (json.unmarshal_celery bytes ≡ reply c) × (c.headers ≡ Dict.empty)

  no_header :
      (m : CeleryMessage)
      → m.headers ≡ Dict.empty
      → task_payload_from_celery_message json m ≡ failed (new "task name not found in headers")
  unfolding task_payload_from_celery_message as_string
  no_header m bare =
      let unset : Dict.get m.headers "task" ≡ none =
        ap (λ d. Dict.get d "task") bare ∙ get-empty "task" in
      rw (unset, task_payload_from_celery_message) refl

  encoded :
      (s : Stamp) (p : TaskPayload) (bytes : List ℕ)
      → encode_task json s p ≡ reply bytes
      → json.marshal_task (new_task_message s p) ≡ reply bytes
  unfolding encode_task map_failed
  encoded s p bytes e = elim (Reply-cases (json.marshal_task (new_task_message s p))) [
    | inl (out, written) ↦ written ∙ (rw (written, encode_task, map_failed) at e)
    | inr (x, refused) ↦ absurd (ground (arith, rw (refused, encode_task, map_failed) at e))
  ]

  -- Where encoding/json ignores the keys that it does not look for, `DecodeTask` fails on
  -- everything that `EncodeTask` writes, for the lack of a header.
  pub decode_task-encode_task :
      (s : Stamp) (p : TaskPayload) (bytes : List ℕ)
      → IgnoresKeys
      → encode_task json s p ≡ reply bytes
      → decode_task json bytes ≡ failed (new "task name not found in headers")
  unfolding decode_task
  decode_task-encode_task s p bytes ignores e =
      let (m, parsed, bare) = ignores (new_task_message s p) bytes (encoded s p bytes e) in
      rw (parsed, decode_task) (no_header m bare)
