-- ===== src/ClientIp/Forwarded/Quoting.antt =====
-- The quoted-string of a Forwarded value, RFC 9110 section 5.6.4, written and read back.
use webhttp.Prelude.{
  ℕ, true, false, ◌||◌, [], ◌∷◌, ◌++◌, some, ◌≡◌, ◌≢◌, refl, ◌==◌, if◌then◌else◌, Bytes, All,
  append-nil, append_assoc, arith,
}
use webhttp.FieldList.{qdtext_byte, quoted_pair_byte}
use webhttp.ClientIp.Forwarded.{unquote_from, cut_forwarded_value}

-- a byte that a quoted-string can hold
abbrev pub IsQuotable : ℕ → Type 0
IsQuotable c = quoted_pair_byte c ≡ true

-- Escapes the quote and the backslash alone.
abbrev pub escape : Bytes → Bytes
escape [] = []
escape (c ∷ v) = if c == b'"' || c == b'\\' then b'\\' ∷ (c ∷ escape v) else c ∷ escape v

unquote_plain :
    (b : Bytes) (c : ℕ) (t : Bytes)
    → t ≢ []
    → (c == b'"' || c == b'\\') ≡ false
    → quoted_pair_byte c ≡ true
    → unquote_from b (c ∷ t) ≡ unquote_from (b ++ c ∷ []) t
unfolding unquote_from qdtext_byte quoted_pair_byte
unquote_plain b c [] h k q = absurd (h refl)
unquote_plain b c (d ∷ t) h k q = ground arith

unquote_escaped :
    (b : Bytes) (c : ℕ) (t : Bytes)
    → quoted_pair_byte c ≡ true
    → unquote_from b (b'\\' ∷ (c ∷ t)) ≡ unquote_from (b ++ c ∷ []) t
unfolding unquote_from
unquote_escaped b c t q = ground arith

unquote_close : (b rest : Bytes) → unquote_from b (b'"' ∷ rest) ≡ some (b, rest)
unfolding unquote_from
unquote_close b [] = refl
unquote_close b (c ∷ rest) = refl

append-ne-nil : (v rest : Bytes) → v ++ b'"' ∷ rest ≢ []
append-ne-nil [] rest = cc
append-ne-nil (c ∷ v) rest = cc

unquote-escape :
    (b v rest : Bytes)
    → All IsQuotable v
    → unquote_from b (escape v ++ b'"' ∷ rest) ≡ some (b ++ v, rest)
unquote-escape b [] rest h = rw append-nil (unquote_close b rest)
unquote-escape b (c ∷ v) rest (q, h) = ground (
  arith,
  unquote_escaped b c (escape v ++ b'"' ∷ rest) q,
  unquote_plain b c (escape v ++ b'"' ∷ rest) (append-ne-nil (escape v) rest),
  unquote-escape (b ++ c ∷ []) v rest h,
  append_assoc b (c ∷ []) v,
)

-- A value of quotable bytes, written as a quoted-string with the quote and the backslash escaped, is
-- read back whole, with what follows it left over.
pub cut_forwarded_value-escape :
    (v rest : Bytes)
    → All IsQuotable v
    → cut_forwarded_value (b'"' ∷ (escape v ++ b'"' ∷ rest)) ≡ some (v, rest)
unfolding cut_forwarded_value
cut_forwarded_value-escape v rest h = unquote-escape [] v rest h
