-- ===== src/RequestLog/Id.antt =====
-- reqlog.go: request ids.
use webhttp.Prelude.{
  ℕ, ◌+◌, ◌*◌, ◌/◌, ◌%◌, ◌<◌, Bool, true, false, ◌||◌, [], ◌∷◌, ◌≡◌, refl, ◌==◌, ltb, within,
  if◌then◌else◌, is_nil, Bytes, length, all, All, arith, ◌-◌,
}

abbrev pub request_id_max_len : ℕ
request_id_max_len = 64

abbrev id_byte : ℕ → Bool
id_byte c = within b'a' b'z' c || within b'A' b'Z' c || within b'0' b'9' c || c == b'_' || c == b'-'

unfoldable pub valid_request_id : Bytes → Bool
valid_request_id s = if is_nil s || ltb request_id_max_len (length s) then false else all id_byte s

-- `hex.EncodeToString`
abbrev hex_digit : ℕ → ℕ
hex_digit d = if ltb d 10 then b'0' + d else b'a' + (d - 10)

abbrev hex_string : Bytes → Bytes
hex_string [] = []
hex_string (c ∷ s) = hex_digit (c / 16) ∷ (hex_digit (c % 16) ∷ hex_string s)

-- `random` is what rand.Read gives: 16 bytes.
unfoldable pub new_request_id : Bytes → Bytes
new_request_id random = hex_string random

abbrev pub IsByte : ℕ → Type 0
IsByte c = c < 256

hex_digit-id : (d : ℕ) → d < 16 → id_byte (hex_digit d) ≡ true
hex_digit-id d h = ground arith

hex_string-id : (s : Bytes) → All IsByte s → all id_byte (hex_string s) ≡ true
hex_string-id [] h = refl
hex_string-id (c ∷ s) (lt, h) =
    rw (hex_digit-id (c / 16) (omega arith), hex_digit-id (c % 16) (omega arith))
      (hex_string-id s h)

length-hex_string : (s : Bytes) → length (hex_string s) ≡ 2 * length s
length-hex_string [] = refl
length-hex_string (c ∷ s) = omega (arith, length-hex_string s)

is_nil_of_length : (s : Bytes) → 0 < length s → is_nil s ≡ false
is_nil_of_length [] h = absurd (omega arith)
is_nil_of_length (c ∷ s) h = refl

-- An id made from 16 random bytes passes the check on the ids that clients send.
pub new_request_id-valid :
    (random : Bytes)
    → length random ≡ 16
    → All IsByte random
    → valid_request_id (new_request_id random) ≡ true
unfolding valid_request_id new_request_id
new_request_id-valid random n h =
    let len = length-hex_string random in
    let full = is_nil_of_length (hex_string random) (omega arith) in
    let bytes = hex_string-id random h in ground arith
