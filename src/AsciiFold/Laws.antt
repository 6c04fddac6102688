-- ===== src/AsciiFold/Laws.antt =====
-- Folding agrees with lowercasing byte by byte, and leaves every byte outside A-Z alone.
use webhttp.Prelude.{
  ℕ, true, [], ◌∷◌, ◌++◌, map, ◌≡◌, refl, ap, ◌↔◌, length, take, drop, Bytes, arith,
}
use webhttp.AsciiFold.{lower_ascii, fold_loop, equal_ascii_fold, first_upper, lower_ascii_string}

take-first_upper :
    (s : Bytes)
    → take (first_upper s) s ++ map lower_ascii (drop (first_upper s) s) ≡ map lower_ascii s
unfolding first_upper lower_ascii
take-first_upper [] = refl
take-first_upper (c ∷ s) = ground (arith, take-first_upper s)

lower_of_none : (s : Bytes) → first_upper s ≡ length s → map lower_ascii s ≡ s
unfolding first_upper lower_ascii
lower_of_none [] h = refl
lower_of_none (c ∷ s) h = ground (arith, lower_of_none s)

-- The allocation-saving scan computes the plain byte-wise map.
pub lower_ascii_string-eq-map : (s : Bytes) → lower_ascii_string s ≡ map lower_ascii s
unfolding lower_ascii_string
lower_ascii_string-eq-map s = ground (arith, take-first_upper s, lower_of_none s)

fold_loop_iff :
    (s t : Bytes)
    → length s ≡ length t
    → (fold_loop s t ≡ true) ↔ (map lower_ascii s ≡ map lower_ascii t)
unfolding fold_loop
fold_loop_iff [] [] h = ground arith
fold_loop_iff [] (y ∷ t) h = absurd (omega arith)
fold_loop_iff (x ∷ s) [] h = absurd (omega arith)
fold_loop_iff (x ∷ s) (y ∷ t) h = ground (arith, fold_loop_iff s t)

length-map_lower : (s : Bytes) → length (map lower_ascii s) ≡ length s
length-map_lower [] = refl
length-map_lower (c ∷ s) = omega (arith, length-map_lower s)

fold_iff_map :
    (s t : Bytes) → (equal_ascii_fold s t ≡ true) ↔ (map lower_ascii s ≡ map lower_ascii t)
unfolding equal_ascii_fold
fold_iff_map s t = (
  λ e. (fold_loop_iff s t (ground arith)).0 (ground arith),
  λ e.
      let same : length s ≡ length t =
        omega (arith, ap length e, length-map_lower s, length-map_lower t) in
      ground (arith, (fold_loop_iff s t same).1 e),
)

-- Two texts fold equal exactly when their lowercased forms are the same bytes.
pub equal_ascii_fold_iff :
    (s t : Bytes) → (equal_ascii_fold s t ≡ true) ↔ (lower_ascii_string s ≡ lower_ascii_string t)
equal_ascii_fold_iff s t = simp lower_ascii_string-eq-map (fold_iff_map s t)

lower_ascii_idem : (c : ℕ) → lower_ascii (lower_ascii c) ≡ lower_ascii c
unfolding lower_ascii
lower_ascii_idem c = ground arith

map_idem : (s : Bytes) → map lower_ascii (map lower_ascii s) ≡ map lower_ascii s
map_idem [] = refl
map_idem (c ∷ s) = cc (lower_ascii_idem c, map_idem s)

-- Lowercasing a lowercased text changes nothing.
lower_ascii_string_idem :
    (s : Bytes) → lower_ascii_string (lower_ascii_string s) ≡ lower_ascii_string s
lower_ascii_string_idem s = simp (lower_ascii_string-eq-map, map_idem)
