-- ===== src/Base64/RoundTrip.antt =====
-- `DecodeString(EncodeToString(data))` of encoding/base64.
use Prim.Native.Char.{code}
use celery_to_go.Prelude.{
  ℕ, zero, suc, ◌+◌, ◌*◌, ◌/◌, ◌%◌, ◌<◌, ◌≡◌, refl, ◌∙◌, String, Bool, true, false, ◌&&◌, not,
  Option, some, List, [], ◌∷◌, All, arith, eqb,
}
use celery_to_go.Base64.{
  encode_to_string, decode_string, decode_quanta, symbol, sextet, is_line_break, text_bytes,
}

is_some_of : ℕ → Option ℕ → Bool
is_some_of v (some w) = eqb w v
is_some_of v _ = false

-- The symbol of a value decodes to it, and is neither the padding nor a line break.
is_good_symbol : ℕ → Bool
unfolding is_some_of
is_good_symbol v =
    let c = code (symbol v) in is_some_of v (sextet c) && not (eqb c b'=') && not (is_line_break c)

all_good : ℕ → Bool
all_good zero = true
all_good (suc n) = is_good_symbol n && all_good n

all_good_sound : (n v : ℕ) → all_good n ≡ true → v < n → is_good_symbol v ≡ true
unfolding all_good
all_good_sound zero v h lt = absurd (omega arith)
all_good_sound (suc n) v h lt = ground (arith, all_good_sound n v)

alphabet_good : all_good 64 ≡ true
unfolding all_good is_good_symbol sextet symbol is_line_break
alphabet_good = refl

is_some_of-eq : (v : ℕ) (o : Option ℕ) → is_some_of v o ≡ true → o ≡ some v
unfolding is_some_of
is_some_of-eq v (some w) h = ground arith
is_some_of-eq v _ h = cc

record GoodSymbol (v : ℕ) : Type 0 where
  decodes : sextet (code (symbol v)) ≡ some v
  no_padding : eqb (code (symbol v)) b'=' ≡ false
  no_break : is_line_break (code (symbol v)) ≡ false

symbol-GoodSymbol : (v : ℕ) → v < 64 → GoodSymbol v
unfolding is_good_symbol
symbol-GoodSymbol v h =
    let good : is_good_symbol v ≡ true = all_good_sound 64 v alphabet_good h in
    record {
      decodes = is_some_of-eq v (sextet (code (symbol v))) (ground arith);
      no_padding = ground arith;
      no_break = ground arith;
    }

cons_bytes :
    (v : ℕ) (s : String)
    → v < 64
    → text_bytes (String.◌∷◌ (symbol v) s) ≡ code (symbol v) ∷ text_bytes s
unfolding text_bytes
cons_bytes v s h = rw ((symbol-GoodSymbol v h).no_break)

module _ (p q : ℕ) (hp : p < 64) (hq : q < 64) where
  decode_one :
      decode_quanta (text_bytes (String.◌∷◌ (symbol p) (String.◌∷◌ (symbol q) "==")))
      ≡ some ((p * 4 + q / 16) ∷ [])
  unfolding decode_quanta
  decode_one =
      rw (cons_bytes p _ hp, cons_bytes q _ hq)
        (unfold text_bytes in
          rw ((symbol-GoodSymbol p hp).decodes, (symbol-GoodSymbol q hq).decodes))

  decode_two :
      (r : ℕ)
      → r < 64
      → decode_quanta
          (text_bytes (String.◌∷◌ (symbol p) (String.◌∷◌ (symbol q) (String.◌∷◌ (symbol r) "="))))
        ≡ some ((p * 4 + q / 16) ∷ (q % 16 * 16 + r / 4) ∷ [])
  unfolding decode_quanta
  decode_two r hr =
      rw (cons_bytes p _ hp, cons_bytes q _ hq, cons_bytes r _ hr)
        (unfold text_bytes in
          rw (
            (symbol-GoodSymbol r hr).no_padding,
            (symbol-GoodSymbol p hp).decodes,
            (symbol-GoodSymbol q hq).decodes,
            (symbol-GoodSymbol r hr).decodes,
          ))

  decode_three :
      (r s : ℕ) (text : String) (bytes : List ℕ)
      → r < 64
      → s < 64
      → decode_quanta (text_bytes text) ≡ some bytes
      → decode_quanta (
          text_bytes (
            String.◌∷◌
              (symbol p)
              (String.◌∷◌ (symbol q) (String.◌∷◌ (symbol r) (String.◌∷◌ (symbol s) text)))))
        ≡ some ((p * 4 + q / 16) ∷ (q % 16 * 16 + r / 4) ∷ (r % 4 * 64 + s) ∷ bytes)
  unfolding decode_quanta
  decode_three r s text bytes hr hs e =
      rw (cons_bytes p _ hp, cons_bytes q _ hq, cons_bytes r _ hr, cons_bytes s _ hs)
        (rw (
          (symbol-GoodSymbol s hs).no_padding,
          (symbol-GoodSymbol p hp).decodes,
          (symbol-GoodSymbol q hq).decodes,
          (symbol-GoodSymbol r hr).decodes,
          (symbol-GoodSymbol s hs).decodes,
          e,
        ))

decode_encoded :
    (bytes : List ℕ)
    → All (λ b. b < 256) bytes
    → decode_quanta (text_bytes (encode_to_string bytes)) ≡ some bytes
unfolding encode_to_string
decode_encoded [] h = unfold text_bytes decode_quanta in refl
decode_encoded (a ∷ []) h =
    decode_one (a / 4) (a % 4 * 16) (omega arith) (omega arith) ∙ ground arith
decode_encoded (a ∷ b ∷ []) h =
    decode_two (a / 4) (a % 4 * 16 + b / 16) (omega arith) (omega arith) (b % 16 * 4) (omega arith)
    ∙ ground arith
decode_encoded (a ∷ b ∷ c ∷ rest) h =
    decode_three (a / 4) (a % 4 * 16 + b / 16) (omega arith) (omega arith) (b % 16 * 4 + c / 64)
      (c % 64) (encode_to_string rest) rest (omega arith) (omega arith)
      (decode_encoded rest h.1.1.1)
    ∙ ground arith

-- Decoding what was encoded gives the bytes back, for every list of bytes.
pub decode_string-encode_to_string :
    (bytes : List ℕ)
    → All (λ b. b < 256) bytes
    → decode_string (encode_to_string bytes) ≡ some bytes
unfolding decode_string
decode_string-encode_to_string = decode_encoded
