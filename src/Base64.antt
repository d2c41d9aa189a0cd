-- ===== src/Base64.antt =====
-- Go's encoding/base64, StdEncoding: `EncodeToString` and `DecodeString`. Bytes are numbers below
-- 256. The decoder skips line breaks anywhere, wants padding, and refuses what follows it.
pub mod RoundTrip
use Prim.Native.Char.{Char, code}
use Prim.Native.String
use Prim.Native.String.{char_at}
use celery_to_go.Prelude.{
  ℕ, ◌+◌, ◌-◌, ◌*◌, ◌/◌, ◌%◌, String, Bool, ◌&&◌, ◌||◌, Option, none, some, List, [], ◌∷◌, leb, ltb,
  eqb, if◌then◌else◌,
}

abbrev alphabet : String
alphabet = "ABCDEFGHIJKLMNOPQRSTUVWXYZabcdefghijklmnopqrstuvwxyz0123456789+/"

symbol : ℕ → Char
symbol v = char_at alphabet v

abbrev padding : Char
padding = "="

sextet : ℕ → Option ℕ
sextet c =
    if leb b'A' c && leb c b'Z'
    then some (c - b'A')
    else if leb b'a' c && leb c b'z'
    then some (c - b'a' + 26)
    else if leb b'0' c && leb c b'9'
    then some (c - b'0' + 52)
    else if eqb c b'+'
    then some 62
    else if eqb c b'/'
    then some 63
    else none

unfoldable pub encode_to_string : List ℕ → String
unfolding symbol
encode_to_string [] = String.[]
encode_to_string (a ∷ []) =
    String.◌∷◌ (symbol (a / 4))
      (String.◌∷◌ (symbol (a % 4 * 16)) (String.◌∷◌ padding (String.◌∷◌ padding String.[])))
encode_to_string (a ∷ b ∷ []) = String.◌∷◌ (symbol (a / 4)) (
    String.◌∷◌ (symbol (a % 4 * 16 + b / 16))
      (String.◌∷◌ (symbol (b % 16 * 4)) (String.◌∷◌ padding String.[])))
encode_to_string (a ∷ b ∷ c ∷ rest) = String.◌∷◌ (symbol (a / 4)) (
    String.◌∷◌ (symbol (a % 4 * 16 + b / 16)) (
      String.◌∷◌ (symbol (b % 16 * 4 + c / 64))
        (String.◌∷◌ (symbol (c % 64)) (encode_to_string rest))))

is_line_break : ℕ → Bool
is_line_break c = eqb c 10 || eqb c 13

text_bytes : String → List ℕ
unfolding is_line_break
text_bytes String.[] = []
text_bytes (String.◌∷◌ c s) =
    let rest = text_bytes s in if is_line_break (code c) then rest else code c ∷ rest

one_byte : List ℕ → Option ℕ → Option ℕ → Option (List ℕ)
one_byte [] (some p) (some q) = some ((p * 4 + q / 16) ∷ [])
one_byte _ _ _ = none

two_bytes : List ℕ → Option ℕ → Option ℕ → Option ℕ → Option (List ℕ)
two_bytes [] (some p) (some q) (some r) = some ((p * 4 + q / 16) ∷ (q % 16 * 16 + r / 4) ∷ [])
two_bytes _ _ _ _ = none

three_bytes : Option ℕ → Option ℕ → Option ℕ → Option ℕ → Option (List ℕ) → Option (List ℕ)
three_bytes (some p) (some q) (some r) (some s) (some bytes) =
    some ((p * 4 + q / 16) ∷ (q % 16 * 16 + r / 4) ∷ (r % 4 * 64 + s) ∷ bytes)
three_bytes _ _ _ _ _ = none

decode_quanta : List ℕ → Option (List ℕ)
unfolding sextet one_byte two_bytes three_bytes
decode_quanta [] = some []
decode_quanta (a ∷ b ∷ c ∷ d ∷ rest) =
    let more = three_bytes (sextet a) (sextet b) (sextet c) (sextet d) (decode_quanta rest) in
    if eqb d b'='
    then if eqb c b'='
      then one_byte rest (sextet a) (sextet b)
      else two_bytes rest (sextet a) (sextet b) (sextet c)
    else more
decode_quanta _ = none

unfoldable pub decode_string : String → Option (List ℕ)
unfolding decode_quanta text_bytes
decode_string s = decode_quanta (text_bytes s)
