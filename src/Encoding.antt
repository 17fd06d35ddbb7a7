-- ===== src/Encoding.antt =====
-- common/encoder/encoder.go: the byte encoding that payloads and events are hashed and signed in.
pub mod RoundTrip
pub mod BigNumber
pub mod Atoi
use go_m_layer.Prelude.{
  ℕ, zero, suc, ◌+◌, ◌-◌, ◌*◌, ◌/◌, ◌%◌, ◌^◌, Bool, true, false, ◌&&◌, Option, none, some, List, [],
  ◌∷◌, ◌++◌, if◌then◌else◌, ltb, leb, ◌==◌, length, replicate, Str, str, hex_prefix, hex_valid,
  Outcome, ok, fail, panic, text, ◌>>=◌, String,
}
use go_m_layer.External.{External, Bytes}

-- binary.Write in big-endian order: b[0] = byte(i >> 56), …, b[7] = byte(i)
unfoldable pub number_to_byte : ℕ → Bytes
number_to_byte i =
    (i / 2 ^ 56 % 256)
    ∷ (i / 2 ^ 48 % 256)
    ∷ (i / 2 ^ 40 % 256)
    ∷ (i / 2 ^ 32 % 256)
    ∷ (i / 2 ^ 24 % 256)
    ∷ (i / 2 ^ 16 % 256)
    ∷ (i / 2 ^ 8 % 256)
    ∷ (i % 256)
    ∷ []

-- binary.BigEndian.Uint64 reads eight bytes, and panics on fewer.
unfoldable pub number_from_byte : Bytes → Outcome ℕ
number_from_byte (a ∷ b ∷ c ∷ d ∷ e ∷ f ∷ g ∷ h ∷ rest) =
    ok (a * 2 ^ 56 + b * 2 ^ 48 + c * 2 ^ 40 + d * 2 ^ 32 + e * 2 ^ 24 + f * 2 ^ 16 + g * 2 ^ 8 + h)
number_from_byte _ = panic

is_digit : ℕ → Bool
is_digit c = leb 48 c && leb c 57

parse_digits : ℕ → Str → Option ℕ
unfolding is_digit
parse_digits n [] = some n
parse_digits n (c ∷ rest) =
    let r = parse_digits (n * 10 + (c - 48)) rest in if is_digit c then r else none

-- strconv.ParseUint(s, 10, 64)
unfoldable pub parse_uint : Str → Option ℕ
unfolding parse_digits
parse_uint [] = none
parse_uint (c ∷ rest) = elim (parse_digits 0 (c ∷ rest)) [
  | none ↦ none
  | some n ↦ if ltb n (2 ^ 64) then some n else none
]

low_bytes : ℕ → ℕ → Bytes
low_bytes zero n = []
low_bytes (suc f) n = let rest = low_bytes f (n / 256) in if n == 0 then [] else (n % 256) ∷ rest

prepend_low : Bytes → Bytes → Bytes
prepend_low [] out = out
prepend_low (b ∷ bs) out = prepend_low bs (b ∷ out)

-- big.Int.Bytes: big-endian, with no leading zero byte
unfoldable pub big_bytes : ℕ → Bytes
unfolding low_bytes prepend_low
big_bytes n = prepend_low (low_bytes n n) []

set_bytes : ℕ → Bytes → ℕ
set_bytes acc [] = acc
set_bytes acc (b ∷ bs) = set_bytes (acc * 256 + b) bs

-- new(big.Int).SetBytes
unfoldable pub big_number : Bytes → ℕ
unfolding set_bytes
big_number = set_bytes 0

-- An EncoderParam: its type, with the value as `fmt.Sprintf("%v", …)` prints it, or as bytes.
pub data EncoderParam : Type 0 where
  byte : Bytes → EncoderParam
  string : Str → EncoderParam
  int : Str → EncoderParam
  bool : Bool → EncoderParam
  big_num : ℕ → EncoderParam
  hex : Str → EncoderParam
  address : Str → EncoderParam

unfoldable pub has_0x : Str → Bool
has_0x (a ∷ b ∷ rest) = a == 48 && b == 120
has_0x _ = false

module _ ⦃x : External⦄ where
  -- The bytes of one argument, `m[i]` of the source.
  unfoldable pub encode_param : EncoderParam → Outcome Bytes
  encode_param (byte b) = ok b
  encode_param (string s) = ok s
  encode_param (int s) = elim (parse_uint s) [
    | none ↦ fail (text (str "invalid syntax"))
    | some n ↦ ok (number_to_byte n)
  ]
  encode_param (bool b) = ok (number_to_byte (if b then 1 else 0))
  encode_param (big_num n) = ok (big_bytes n)
  encode_param (hex s) =
      if has_0x s
      then x.hexutil_decode s
      else if hex_valid s
      then ok (hex_prefix s)
      else fail (text (str "encoding/hex: invalid byte"))
  encode_param (address s) = ok s

  -- The first argument that does not encode ends the call with its error; else all are joined.
  unfoldable pub encode_bytes : List EncoderParam → Outcome Bytes
  encode_bytes [] = ok []
  encode_bytes (p ∷ ps) = do b ← encode_param p; rest ← encode_bytes ps; ok (b ++ rest)

unfoldable pub add_base64_padding : Str → Str
add_base64_padding value =
    let m = length value % 4 in if m == 0 then value else value ++ replicate (4 - m) 61

-- The alphabet of base64.StdEncoding.
base64_char : ℕ → ℕ
base64_char n =
    if ltb n 26
    then 65 + n
    else if ltb n 52
    then 71 + n
    else if ltb n 62
    then n - 4
    else if n == 62
    then 43
    else 47

base64_encode : Bytes → Str
base64_encode [] = []
base64_encode (a ∷ []) = base64_char (a / 4) ∷ base64_char (a % 4 * 16) ∷ 61 ∷ 61 ∷ []
base64_encode (a ∷ b ∷ []) =
    base64_char (a / 4) ∷ base64_char (a % 4 * 16 + b / 16) ∷ base64_char (b % 16 * 4) ∷ 61 ∷ []
base64_encode (a ∷ b ∷ c ∷ rest) =
    base64_char (a / 4)
    ∷ base64_char (a % 4 * 16 + b / 16)
    ∷ base64_char (b % 16 * 4 + c / 64)
    ∷ base64_char (c % 64)
    ∷ base64_encode rest

unfoldable pub to_base64_padded : Bytes → Str
unfolding base64_encode base64_char add_base64_padding
to_base64_padded b = add_base64_padding (base64_encode b)
