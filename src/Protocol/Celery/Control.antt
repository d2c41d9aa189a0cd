-- ===== src/Protocol/Celery/Control.antt =====
-- The control messages of internal/protocol/celery/json.go in both directions: ping, pong and stop.
use celery_to_go.Prelude.{ℕ, String, true, ◌≡◌, refl, ap, ◌∙◌, List}
use celery_to_go.Prelude.Errors.{new, Reply, reply, failed}
use celery_to_go.Protocol.Payload.{Stamp}
use celery_to_go.Protocol.Message.{
  new_base_message, new_ping_message, new_pong_message, new_stop_message, internal_ping_message,
  internal_pong_message, internal_stop_message,
}
use celery_to_go.Protocol.Celery.Format.{Json, map_failed}
use celery_to_go.Protocol.Celery.{
  encode_ping, decode_ping, encode_pong, decode_pong, encode_stop, decode_stop, decode_internal,
}

pub data Control : Type 0 where
  ping pong stop : Control

abbrev pub type_of : Control → String
type_of ping = internal_ping_message
type_of pong = internal_pong_message
type_of stop = internal_stop_message

module _ (json : Json) where
  abbrev pub encode : Control → Stamp → Reply (List ℕ)
  encode ping s = encode_ping json s
  encode pong s = encode_pong json s
  encode stop s = encode_stop json s

  abbrev pub decode : Control → List ℕ → Reply (Unit {0})
  decode ping bytes = decode_ping json bytes
  decode pong bytes = decode_pong json bytes
  decode stop bytes = decode_stop json bytes

  -- The call of encoding/json in `encode`.
  abbrev pub marshal_control : Control → Stamp → Reply (List ℕ)
  marshal_control ping s = json.marshal_ping (new_ping_message s)
  marshal_control pong s = json.marshal_pong (new_pong_message s "")
  marshal_control stop s = json.marshal_stop (new_stop_message s true)

  -- The type of the message in that call.
  abbrev pub sent_type : Control → Stamp → String
  sent_type ping s = (new_ping_message s).base.message_type
  sent_type pong s = (new_pong_message s "").base.message_type
  sent_type stop s = (new_stop_message s true).base.message_type

  sent_type_lem : (k : Control) (s : Stamp) → sent_type k s ≡ type_of k
  unfolding new_ping_message new_pong_message new_stop_message new_base_message
  sent_type_lem ping s = refl
  sent_type_lem pong s = refl
  sent_type_lem stop s = refl

  by_reply :
      (r : Reply (List ℕ)) (context : String) {bytes : List ℕ}
      → map_failed context r ≡ reply bytes
      → r ≡ reply bytes
  unfolding map_failed
  by_reply (reply out) context e = e
  by_reply (failed x) context e = cc

  marshalled :
      (k : Control) (s : Stamp) (bytes : List ℕ)
      → encode k s ≡ reply bytes
      → marshal_control k s ≡ reply bytes
  unfolding encode_ping encode_pong encode_stop map_failed
  marshalled ping s bytes e = by_reply (json.marshal_ping (new_ping_message s)) _ e
  marshalled pong s bytes e = by_reply (json.marshal_pong (new_pong_message s "")) _ e
  marshalled stop s bytes e = by_reply (json.marshal_stop (new_stop_message s true)) _ e

  -- What a decoder answers to a message of some type.
  abbrev pub answer : Control → Control → Reply (Unit {0})
  answer ping ping = reply tt
  answer pong pong = reply tt
  answer stop stop = reply tt
  answer ping _ = failed (new "message is not a ping message")
  answer pong _ = failed (new "message is not a pong message")
  answer stop _ = failed (new "message is not a stop message")

  decode_typed :
      (k l : Control) (bytes : List ℕ)
      → json.unmarshal_type bytes ≡ reply (type_of l)
      → decode k bytes ≡ answer k l
  unfolding decode_ping decode_pong decode_stop decode_internal
  decode_typed ping ping bytes e = rw (e, decode_internal) refl
  decode_typed ping pong bytes e = rw (e, decode_internal) refl
  decode_typed ping stop bytes e = rw (e, decode_internal) refl
  decode_typed pong ping bytes e = rw (e, decode_internal) refl
  decode_typed pong pong bytes e = rw (e, decode_internal) refl
  decode_typed pong stop bytes e = rw (e, decode_internal) refl
  decode_typed stop ping bytes e = rw (e, decode_internal) refl
  decode_typed stop pong bytes e = rw (e, decode_internal) refl
  decode_typed stop stop bytes e = rw (e, decode_internal) refl

  -- If encoding/json reads back the type field of the message that it was given to write, then a ping, a pong or a
  -- stop message is accepted by the decoder of its kind and refused by the two others.
  pub decode-encode :
      (k l : Control) (s : Stamp) (bytes : List ℕ)
      → ((out : List ℕ)
          → marshal_control l s ≡ reply out
          → json.unmarshal_type out ≡ reply (sent_type l s))
      → encode l s ≡ reply bytes
      → decode k bytes ≡ answer k l
  decode-encode k l s bytes faithful e =
      decode_typed k l bytes
        (faithful bytes (marshalled l s bytes e) ∙ ap reply (sent_type_lem l s))
