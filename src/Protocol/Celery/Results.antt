-- ===== src/Protocol/Celery/Results.antt =====
-- Results through the internal format.
use celery_to_go.Prelude.{ℕ, ◌≡◌, refl, ◌∙◌, List, inl, inr, arith}
use celery_to_go.Prelude.Errors.{reply, Reply-cases}
use celery_to_go.Protocol.Payload.{ResultPayload, Stamp}
use celery_to_go.Protocol.Message.{
  ResultMessage, new_result_message, new_base_message, result_payload,
}
use celery_to_go.Protocol.Celery.Format.{Json, map_failed}
use celery_to_go.Protocol.Celery.{encode_result, decode_result, decode_internal, read_result}

module _ (json : Json) where
  -- What encoding/json writes for this result message, it reads back as the same message, and as its
  -- type.
  abbrev pub IsFaithful : ResultMessage → Type 0
  IsFaithful m =
      (bytes : List ℕ)
      → json.marshal_result m ≡ reply bytes
      → (json.unmarshal_type bytes ≡ reply m.base.message_type)
        × (json.unmarshal_result bytes ≡ reply m)

  encoded :
      (s : Stamp) (p : ResultPayload) (bytes : List ℕ)
      → encode_result json s p ≡ reply bytes
      → json.marshal_result (new_result_message s p) ≡ reply bytes
  unfolding encode_result map_failed
  encoded s p bytes e = elim (Reply-cases (json.marshal_result (new_result_message s p))) [
    | inl (out, written) ↦ written ∙ (rw (written, encode_result, map_failed) at e)
    | inr (x, refused) ↦ absurd (ground (arith, rw (refused, encode_result, map_failed) at e))
  ]

  -- For a result whose message encoding/json reads back as it wrote it, `DecodeResult` gives back the
  -- payload that `EncodeResult` was given.
  pub decode_result-encode_result :
      (s : Stamp) (p : ResultPayload) (bytes : List ℕ)
      → IsFaithful (new_result_message s p)
      → encode_result json s p ≡ reply bytes
      → decode_result json bytes ≡ reply p
  unfolding decode_result decode_internal read_result new_result_message new_base_message
      result_payload
  decode_result-encode_result s p bytes faithful e =
      let (kind, same) = faithful bytes (encoded s p bytes e) in
      rw (kind, decode_internal, read_result, same) refl
