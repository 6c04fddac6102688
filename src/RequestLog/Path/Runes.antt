-- ===== src/RequestLog/Path/Runes.antt =====
-- A logged path that is cut is cut between two characters.
use webhttp.Prelude.{
  ℕ, zero, suc, ◌+◌, ◌-◌, ◌≤◌, ◌<◌, true, false, not, List, [], ◌∷◌, ◌++◌, ◌≡◌, inl, inr, refl, leb,
  if◌then◌else◌, length, take, Bytes, arith, length-append, Bool-cases, all, All, ap, ◌∙◌,
}
use native.Mathlib.Decide.{dec_lt}
use webhttp.RequestLog.Path.{
  truncated_path_marker, rune_start, byte_at, rune_cut, bound_logged_path,
}

-- the UTF-8 bytes of one character: a starting byte and continuation bytes
abbrev pub IsRune : Bytes → Type 0
IsRune [] = ⊥
IsRune (c ∷ s) = (rune_start c ≡ true) × (all (λ d. not (rune_start d)) s ≡ true)

abbrev pub concat : List Bytes → Bytes
concat [] = []
concat (r ∷ rs) = r ++ concat rs

-- as many characters from the front as fit in `n` bytes
abbrev pub fitting : ℕ → List Bytes → List Bytes
fitting n [] = []
fitting n (r ∷ rs) =
    let rest = fitting (n - length r) rs in if leb (length r) n then r ∷ rest else []

byte_at-append : (s t : Bytes) (j : ℕ) → byte_at (s ++ t) (length s + j) ≡ byte_at t j
byte_at-append [] t j = let e : 0 + j ≡ j = omega arith in ap (byte_at t) e
byte_at-append (c ∷ s) t j =
    let e : suc (length s) + j ≡ suc (length s + j) = omega arith in
    ap (byte_at (c ∷ (s ++ t))) e ∙ byte_at-append s t j

take-append : (s t : Bytes) (j : ℕ) → take (length s + j) (s ++ t) ≡ s ++ take j t
take-append [] t j = let e : 0 + j ≡ j = omega arith in ap (λ n. take n t) e
take-append (c ∷ s) t j =
    let e : suc (length s) + j ≡ suc (length s + j) = omega arith in
    ap (λ n. take n (c ∷ (s ++ t))) e ∙ ap (◌∷◌ c) (take-append s t j)

byte_at-inside :
    (s t : Bytes) (i : ℕ)
    → all (λ d. not (rune_start d)) s ≡ true
    → i < length s
    → rune_start (byte_at (s ++ t) i) ≡ false
byte_at-inside [] t i h lt = absurd (omega arith)
byte_at-inside (c ∷ s) t zero h lt = ground arith
byte_at-inside (c ∷ s) t (suc i) h lt = ground (arith, byte_at-inside s t i)

rune_cut-first :
    (c : ℕ) (s t : Bytes) (n : ℕ)
    → all (λ d. not (rune_start d)) s ≡ true
    → n ≤ length s
    → rune_cut (c ∷ (s ++ t)) n ≡ 0
unfolding rune_cut
rune_cut-first c s t zero h le = refl
rune_cut-first c s t (suc n) h le =
    rw (byte_at-inside s t n h (omega arith)) (rune_cut-first c s t n h (omega arith))

first_start :
    (rs : List Bytes)
    → All IsRune rs
    → 0 < length (concat rs)
    → rune_start (byte_at (concat rs) 0) ≡ true
first_start [] h lt = absurd (omega arith)
first_start ([] ∷ rs) (h, hs) lt = absurd h
first_start ((c ∷ s) ∷ rs) ((h, _), hs) lt = h

rune_cut-past :
    (c : ℕ) (s : Bytes) (rs : List Bytes) (j : ℕ)
    → All IsRune rs
    → j < length (concat rs)
    → rune_cut (c ∷ (s ++ concat rs)) (suc (length s + j)) ≡ suc (length s + rune_cut (concat rs) j)
unfolding rune_cut
rune_cut-past c s rs zero h lt = rw (byte_at-append s (concat rs) 0, first_start rs h lt) refl
rune_cut-past c s rs (suc j) h lt =
    let e : length s + suc j ≡ suc (length s + j) = omega arith in
    let at_ = byte_at-append s (concat rs) (suc j) in
    elim (Bool-cases (rune_start (byte_at (concat rs) (suc j)))) [
      | inl start ↦ rw (at_, start) refl
      | inr inside ↦ rw (at_, inside, e) (rune_cut-past c s rs j h (omega arith))
    ]

take-rune_cut :
    (rs : List Bytes) (n : ℕ)
    → All IsRune rs
    → n < length (concat rs)
    → take (rune_cut (concat rs) n) (concat rs) ≡ concat (fitting n rs)
take-rune_cut [] n h lt = absurd (omega arith)
take-rune_cut ([] ∷ rs) n (h, hs) lt = absurd h
take-rune_cut ((c ∷ s) ∷ rs) n ((start, conts), hs) lt = elim (dec_lt (length s) n) [
  | no le ↦
      let few : leb (suc (length s)) n ≡ false = ground arith in
      rw (rune_cut-first c s (concat rs) n conts (omega arith), few) refl
  | yes gt ↦
      let j = n - suc (length s) in
      let e : n ≡ suc (length s + j) = omega arith in
      let fits : leb (suc (length s)) n ≡ true = ground arith in
      let inside : j < length (concat rs) = omega (arith, length-append s (concat rs)) in
      let cut : rune_cut (c ∷ (s ++ concat rs)) n ≡ suc (length s + rune_cut (concat rs) j) =
        ap (rune_cut (c ∷ (s ++ concat rs))) e ∙ rune_cut-past c s rs j hs inside in
      rw (cut, fits, take-append s (concat rs))
        (ap (λ t. c ∷ (s ++ t)) (take-rune_cut rs j hs inside))
]

-- Of a path in UTF-8, either all is logged, which is so where it fits, or as many characters from the
-- front as fit in the length and then the marker: no character is logged in part.
pub bound_logged_path-runes :
    (rs : List Bytes) (n : ℕ)
    → All IsRune rs
    → bound_logged_path (concat rs) n ≡ (
        if leb (length (concat rs)) n
        then concat rs
        else concat (fitting n rs) ++ truncated_path_marker)
unfolding bound_logged_path
bound_logged_path-runes rs n h = elim (Bool-cases (leb (length (concat rs)) n)) [
  | inl whole ↦ rw whole refl
  | inr long ↦
      let lt : n < length (concat rs) = ground arith in rw (long, take-rune_cut rs n h lt) refl
]
