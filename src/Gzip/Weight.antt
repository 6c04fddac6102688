-- ===== src/Gzip/Weight.antt =====
-- The weights that refuse a coding, RFC 9110 section 12.4.2.
use webhttp.Prelude.{
  ℕ, zero, suc, ◌≤◌, true, [], ◌∷◌, ◌++◌, ◌≡◌, ◌⊎◌, inl, inr, ◌↔◌, refl, ◌==◌, Bytes, codes, length,
  all, arith,
}
use webhttp.Gzip.{zero_q_value}

abbrev pub zeros : ℕ → Bytes
zeros zero = []
zeros (suc n) = b'0' ∷ zeros n

length-zeros : (n : ℕ) → length (zeros n) ≡ n
length-zeros zero = refl
length-zeros (suc n) = omega (arith, length-zeros n)

all-zeros : (n : ℕ) → all (λ c. c == b'0') (zeros n) ≡ true
all-zeros zero = refl
all-zeros (suc n) = ground (arith, all-zeros n)

zeros_of_all : (s : Bytes) → all (λ c. c == b'0') s ≡ true → s ≡ zeros (length s)
zeros_of_all [] h = refl
zeros_of_all (c ∷ s) h = ground (arith, zeros_of_all s)

abbrev pub IsZeroWeight : Bytes → Type 0
IsZeroWeight v = (v ≡ codes "0") ⊎ ((n : ℕ) × (n ≤ 3) × (v ≡ codes "0." ++ zeros n))

zero_of : (v : Bytes) → zero_q_value v ≡ true → IsZeroWeight v
unfolding zero_q_value
zero_of [] h = cc
zero_of (c ∷ []) h = inl (ground arith)
zero_of (c ∷ (d ∷ s)) h = inr (length s, ground arith, ground (arith, zeros_of_all s))

weight_zero : (n : ℕ) → n ≤ 3 → zero_q_value (codes "0." ++ zeros n) ≡ true
unfolding zero_q_value
weight_zero n h = ground (arith, length-zeros n, all-zeros n)

-- A weight is zero exactly if it is "0", or "0." with at most three digits, all of them zero.
pub zero_q_value_iff : (v : Bytes) → (zero_q_value v ≡ true) ↔ IsZeroWeight v
zero_q_value_iff v = (zero_of v, back)
  where
    back : IsZeroWeight v → zero_q_value v ≡ true
    back (inl e) = rw e (unfold zero_q_value in refl)
    back (inr (n, le, e)) = rw e (weight_zero n le)
