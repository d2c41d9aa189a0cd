-- ===== src/Broker/Convert/Batch.antt =====
-- What the conversion of a batch keeps: the bodies, and the messages of each group in their order.
use celery_to_go.Prelude.{
  ℕ, ◌<◌, String, ◌≡◌, ◌≢◌, arith, refl, sym, ap, ◌∙◌, none, some, List, [], ◌∷◌, ◌++◌, All, eq_iff,
  ◌==◌, Bool-cases, Option-cases, inl, inr,
}
use mathlib.Core.List.{append-nil, append_assoc}
use celery_to_go.Prelude.Dict
use celery_to_go.Prelude.Dict.{Dict, get-put, get-empty}
use celery_to_go.Base64.{encode_to_string, decode_string}
use celery_to_go.Base64.RoundTrip.{decode_string-encode_to_string}
use celery_to_go.Broker.Message.{Message}
use celery_to_go.Broker.Client.{SqsMessage}
use celery_to_go.Broker.Convert.{convert, to_message, group_of, group_messages, or_nil}
use celery_to_go.Broker.Groups.Consistent.{of_group, of_group-append, Belong}

-- A message of a group whose body is the Base64 text of some bytes is converted, with those bytes as
-- its body.
pub convert-encode_to_string :
    (m : SqsMessage) (gid : String) (bytes : List ℕ)
    → group_of m ≡ some gid
    → m.body ≡ encode_to_string bytes
    → All (λ b. b < 256) bytes
    → convert m ≡ some (to_message m gid bytes)
unfolding convert
convert-encode_to_string m gid bytes own body h =
    let decoded : decode_string m.body ≡ some bytes =
      ap decode_string body ∙ decode_string-encode_to_string bytes h in
    rw (own, convert, decoded) refl

-- The messages that are converted, in their order.
unfoldable pub converted : List SqsMessage → List Message
converted [] = []
converted (m ∷ ms) =
    let rest = converted ms in elim (convert m) [ none ↦ rest | some msg ↦ msg ∷ rest ]

add_to_group :
    (by_group : Dict (List Message)) (msg : Message) (gid : String)
    → or_nil (
        Dict.get
          (Dict.put by_group msg.message_group_id
            (or_nil (Dict.get by_group msg.message_group_id) ++ msg ∷ []))
          gid)
      ≡ or_nil (Dict.get by_group gid) ++ of_group gid (msg ∷ [])
unfolding of_group
add_to_group by_group msg gid = elim (Bool-cases (msg.message_group_id == gid)) [
  | inl same ↦ rw (get-put, same) (rw ((eq_iff msg.message_group_id gid).0 same) refl)
  | inr other ↦ rw (get-put, other) (sym (append-nil _))
]

group_messages_from :
    (ms : List SqsMessage) (by_group : Dict (List Message)) (gid : String)
    → or_nil (Dict.get (group_messages ms by_group) gid)
      ≡ or_nil (Dict.get by_group gid) ++ of_group gid (converted ms)
unfolding group_messages converted of_group
group_messages_from [] by_group gid = sym (append-nil _)
group_messages_from (m ∷ ms) by_group gid = elim (Option-cases (convert m)) [
  | inl dropped ↦ rw (dropped, group_messages, converted) (group_messages_from ms by_group gid)
  | inr (msg, kept) ↦
      rw (kept, group_messages, converted)
        (group_messages_from ms _ gid
          ∙ ap (λ l. l ++ of_group gid (converted ms)) (add_to_group by_group msg gid)
          ∙ append_assoc (or_nil (Dict.get by_group gid)) (of_group gid (msg ∷ []))
              (of_group gid (converted ms))
          ∙ ap (λ l. or_nil (Dict.get by_group gid) ++ l)
              (sym (of_group-append gid (msg ∷ []) (converted ms))))
]

-- The batch is sorted by group: under each group stand the messages of that group that are
-- converted, in the order of the batch, and nothing else.
pub group_messages_lem :
    (ms : List SqsMessage) (gid : String)
    → or_nil (Dict.get (group_messages ms Dict.empty) gid) ≡ of_group gid (converted ms)
group_messages_lem ms gid =
    group_messages_from ms Dict.empty gid
    ∙ ap (λ o. or_nil o ++ of_group gid (converted ms)) (get-empty gid)

pub of_group-Belong : (gid : String) (ms : List Message) → Belong gid (of_group gid ms)
unfolding of_group
of_group-Belong gid [] = tt
of_group-Belong gid (m ∷ ms) = elim (Bool-cases (m.message_group_id == gid)) [
  | inl own ↦ rw own ((eq_iff m.message_group_id gid).0 own, of_group-Belong gid ms)
  | inr other ↦ rw other (of_group-Belong gid ms)
]

-- A list under a group is never empty.
abbrev HasMessages : Dict (List Message) → Type 0
HasMessages by_group = (gid : String) → Dict.get by_group gid ≢ some []

append-ne-nil : (ms : List Message) (m : Message) → ms ++ m ∷ [] ≢ []
append-ne-nil [] m e = cc
append-ne-nil (n ∷ ms) m e = cc

put-HasMessages :
    (by_group : Dict (List Message)) (gid : String) (ms : List Message) (m : Message)
    → HasMessages by_group
    → HasMessages (Dict.put by_group gid (ms ++ m ∷ []))
put-HasMessages by_group gid ms m h j e =
    ground (arith, get-put by_group gid j (ms ++ m ∷ []), append-ne-nil ms m, h j)

group_messages_from-HasMessages :
    (ms : List SqsMessage) (by_group : Dict (List Message))
    → HasMessages by_group
    → HasMessages (group_messages ms by_group)
unfolding group_messages
group_messages_from-HasMessages [] by_group h = h
group_messages_from-HasMessages (m ∷ ms) by_group h = elim (Option-cases (convert m)) [
  | inl dropped ↦ rw (dropped, group_messages) (group_messages_from-HasMessages ms by_group h)
  | inr (msg, kept) ↦
      rw (kept, group_messages)
        (group_messages_from-HasMessages ms _
          (put-HasMessages by_group msg.message_group_id _ msg h))
]

pub group_messages-HasMessages :
    (ms : List SqsMessage) (gid : String) → Dict.get (group_messages ms Dict.empty) gid ≢ some []
group_messages-HasMessages ms =
    group_messages_from-HasMessages ms Dict.empty
      (λ gid e. ground (arith, get-empty {V = List Message} gid))
