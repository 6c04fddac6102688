-- ===== src/ClientIp/Forwarded/Fuel.antt =====
-- The loop over a Forwarded element always ends: every pair takes a byte at least.
use webhttp.Prelude.{
  ℕ, zero, suc, ◌≤◌, ◌<◌, List, [], ◌∷◌, ◌++◌, none, some, ◌≡◌, ◌≢◌, length, drop, Bytes, codes,
  arith, Option-cases, inl, inr, cut_prefix,
}
use webhttp.FieldList.{token_len}
use webhttp.Net.{Addr, AddrText}
use webhttp.ClientIp.Forwarded.{
  unquote_from, cut_token, cut_forwarded_value, Pair, cut_forwarded_pair, element_loop,
}

length-drop-le : (n : ℕ) (s : Bytes) → length (drop n s) ≤ length s
length-drop-le zero s = omega arith
length-drop-le (suc n) [] = omega arith
length-drop-le (suc n) (c ∷ s) = omega (arith, length-drop-le n s)

unquote_from-length :
    (b s v rest : Bytes) → unquote_from b s ≡ some (v, rest) → length rest ≤ length s
unfolding unquote_from
unquote_from-length b [] v rest h = cc
unquote_from-length b (c ∷ []) v rest h = ground arith
unquote_from-length b (c ∷ (d ∷ s)) v rest h = ground (
  arith,
  unquote_from-length (b ++ d ∷ []) s v rest,
  unquote_from-length (b ++ c ∷ []) (d ∷ s) v rest,
)

cut_token-length : (s v rest : Bytes) → cut_token s ≡ some (v, rest) → length rest ≤ length s
unfolding cut_token
cut_token-length s v rest h = ground (arith, length-drop-le (token_len s) s)

cut_forwarded_value-length :
    (s v rest : Bytes) → cut_forwarded_value s ≡ some (v, rest) → length rest ≤ length s
unfolding cut_forwarded_value
cut_forwarded_value-length [] v rest h = cut_token-length [] v rest h
cut_forwarded_value-length (c ∷ s) v rest h =
    ground (arith, unquote_from-length [] s v rest, cut_token-length (c ∷ s) v rest)

cut_eq-length : (t after : Bytes) → cut_prefix (codes "=") t ≡ some after → length after < length t
cut_eq-length [] after h = cc
cut_eq-length (c ∷ t) after h = ground arith

-- A pair has its name and "=" at least, so what is left is shorter.
cut_forwarded_pair-length :
    (s : Bytes) (p : Pair) → cut_forwarded_pair s ≡ some p → length p.rest < length s
unfolding cut_forwarded_pair
cut_forwarded_pair-length s p h =
    let behind = drop (token_len s) s in
    elim (Option-cases (cut_prefix (codes "=") behind)) [
      | inl missing ↦ absurd (ground arith)
      | inr (after, eq) ↦ elim (Option-cases (cut_forwarded_value after)) [
        | inl missing ↦ absurd (ground arith)
        | inr ((value, rest), found) ↦ ground (
          arith,
          cut_eq-length behind after eq,
          cut_forwarded_value-length after value rest found,
          length-drop-le (token_len s) s,
        )
      ]
    ]

module _ (text : AddrText) where
  -- With more fuel than bytes to read, the loop over an element's pairs comes to an answer.
  pub element_loop-ne-none :
      (fuel : ℕ) (for_node : Addr) (seen : List Bytes) (rest : Bytes)
      → length rest < fuel
      → element_loop text fuel for_node seen rest ≢ none
  unfolding element_loop
  element_loop-ne-none zero for_node seen rest lt = absurd (omega arith)
  element_loop-ne-none (suc fuel) for_node seen [] lt = cc
  element_loop-ne-none (suc fuel) for_node seen (c ∷ s) lt =
      grind (arith, element_loop-ne-none fuel, cut_forwarded_pair-length (c ∷ s))
