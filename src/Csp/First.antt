-- ===== src/Csp/First.antt =====
-- The search that jumps from tag to tag finds what a search at every position finds.
use webhttp.Prelude.{
  ℕ, zero, suc, ◌+◌, ◌≤◌, ◌<◌, Bool, true, false, ◌&&◌, not, [], ◌∷◌, Option, none, some, ◌≡◌, refl,
  sym, ap, ◌∙◌, ◌==◌, if◌then◌else◌, length, drop, Bytes, all, arith, Bool-cases, Option-cases, inl,
  inr,
}
use webhttp.Csp.{
  has_fold_prefix, shift, index_fold_ascii, ends_name, find_loop, find_element_open,
  find_element_close,
}

-- The tag stands here: its name in any case, and what ends a name behind it.
abbrev pub is_here : Bool → Bytes → Bytes → Bool
is_here at_end tag s = has_fold_prefix s tag && ends_name at_end (drop (length tag) s)

-- the first position at which the tag stands
abbrev pub first_at : Bool → Bytes → Bytes → Option ℕ
first_at at_end tag [] = if is_here at_end tag [] then some 0 else none
first_at at_end tag (c ∷ s) =
    let rest = shift 1 (first_at at_end tag s) in
    if is_here at_end tag (c ∷ s) then some 0 else rest

abbrev pub IsName : Bytes → Type 0
IsName tag = all (λ c. not (c == b'<')) tag ≡ true

shift-shift : (m n : ℕ) (o : Option ℕ) → shift m (shift n o) ≡ shift (m + n) o
shift-shift m n none = refl
shift-shift m n (some k) = let e : m + (n + k) ≡ m + n + k = omega arith in ap some e

shift-zero : (o : Option ℕ) → shift 0 o ≡ o
shift-zero none = refl
shift-zero (some k) = let e : 0 + k ≡ k = omega arith in ap some e

abbrev nothing : Bytes
nothing = []

drop-nothing : (n : ℕ) → drop n nothing ≡ nothing
drop-nothing zero = refl
drop-nothing (suc n) = refl

pub drop-drop : (m n : ℕ) (s : Bytes) → drop (m + n) s ≡ drop n (drop m s)
drop-drop zero n s = let e : 0 + n ≡ n = omega arith in ap (λ k. drop k s) e
drop-drop (suc m) n [] =
    let e : suc m + n ≡ suc (m + n) = omega arith in
    ap (λ k. drop k nothing) e ∙ sym (drop-nothing n)
drop-drop (suc m) n (c ∷ s) =
    let e : suc m + n ≡ suc (m + n) = omega arith in ap (λ k. drop k (c ∷ s)) e ∙ drop-drop m n s

pub length-drop-le : (n : ℕ) (s : Bytes) → length (drop n s) ≤ length s
length-drop-le zero s = omega arith
length-drop-le (suc n) [] = omega arith
length-drop-le (suc n) (c ∷ s) = omega (arith, length-drop-le n s)

pub has_fold_prefix-length :
    (s t : Bytes) → has_fold_prefix s t ≡ true → length t + length (drop (length t) s) ≡ length s
unfolding has_fold_prefix
has_fold_prefix-length s [] h = omega arith
has_fold_prefix-length [] (n ∷ ns) h = cc
has_fold_prefix-length (c ∷ s) (n ∷ ns) h = ground (arith, has_fold_prefix-length s ns)

module _ (at_end : Bool) (tag : Bytes) (name : IsName tag) where
  index_none :
      (s : Bytes) → index_fold_ascii s (b'<' ∷ tag) ≡ none → first_at at_end (b'<' ∷ tag) s ≡ none
  unfolding index_fold_ascii
  index_none [] h = ground arith
  index_none (c ∷ s) h = ground (arith, index_none s)

  index_some :
      (s : Bytes) (k : ℕ)
      → index_fold_ascii s (b'<' ∷ tag) ≡ some k
      → (has_fold_prefix (drop k s) (b'<' ∷ tag) ≡ true)
        × (first_at at_end (b'<' ∷ tag) s ≡ shift k (first_at at_end (b'<' ∷ tag) (drop k s)))
  unfolding index_fold_ascii
  index_some [] k h = absurd (ground arith)
  index_some (c ∷ s) k h = elim (Bool-cases (has_fold_prefix (c ∷ s) (b'<' ∷ tag))) [
    | inl here ↦ let e : k ≡ 0 = ground arith in rw e (here, sym (shift-zero _))
    | inr later ↦ elim (Option-cases (index_fold_ascii s (b'<' ∷ tag))) [
      | inl missing ↦ absurd (ground arith)
      | inr (j, found) ↦
          let e : k ≡ suc j = ground arith in
          let one : 1 + j ≡ suc j = omega arith in
          let (prefix, same) = index_some s j found in
          let not_here : is_here at_end (b'<' ∷ tag) (c ∷ s) ≡ false = rw later refl in
          rw e (
            prefix,
            rw not_here (
                ap (shift 1) same
                ∙ shift-shift 1 j _
                ∙ ap (λ n. shift n (first_at at_end (b'<' ∷ tag) (drop j s))) one),
          )
    ]
  ]

  past_name :
      (ns s : Bytes)
      → IsName ns
      → has_fold_prefix s ns ≡ true
      → first_at at_end (b'<' ∷ tag) s
        ≡ shift (length ns) (first_at at_end (b'<' ∷ tag) (drop (length ns) s))
  unfolding has_fold_prefix
  past_name [] s h p = sym (shift-zero _)
  past_name (n ∷ ns) [] h p = cc
  past_name (n ∷ ns) (c ∷ s) h p =
      let not_here : is_here at_end (b'<' ∷ tag) (c ∷ s) ≡ false = ground arith in
      let rest = past_name ns s (ground arith) (ground arith) in
      let e : 1 + length ns ≡ suc (length ns) = omega arith in
      rw not_here (
        ap (shift 1) rest
        ∙ shift-shift 1 (length ns) _
        ∙ ap (λ k. shift k (first_at at_end (b'<' ∷ tag) (drop (length ns) s))) e)

  -- Going past a tag that does not stand here misses no other.
  past_tag :
      (u : Bytes)
      → has_fold_prefix u (b'<' ∷ tag) ≡ true
      → ends_name at_end (drop (suc (length tag)) u) ≡ false
      → first_at at_end (b'<' ∷ tag) u
        ≡ shift (suc (length tag)) (first_at at_end (b'<' ∷ tag) (drop (suc (length tag)) u))
  unfolding has_fold_prefix
  past_tag [] p q = cc
  past_tag (c ∷ u) p q =
      let not_here : is_here at_end (b'<' ∷ tag) (c ∷ u) ≡ false = ground arith in
      let rest = past_name tag u name (ground arith) in
      let e : 1 + length tag ≡ suc (length tag) = omega arith in
      rw not_here (
        ap (shift 1) rest
        ∙ shift-shift 1 (length tag) _
        ∙ ap (λ k. shift k (first_at at_end (b'<' ∷ tag) (drop (length tag) u))) e)

  is_here_first :
      (u : Bytes) → is_here at_end (b'<' ∷ tag) u ≡ true → first_at at_end (b'<' ∷ tag) u ≡ some 0
  is_here_first [] h = rw h refl
  is_here_first (c ∷ u) h = rw h refl

  find_none :
      (fuel : ℕ) (s : Bytes)
      → index_fold_ascii s (b'<' ∷ tag) ≡ none
      → find_loop (suc fuel) at_end (b'<' ∷ tag) s ≡ none
  unfolding find_loop
  find_none fuel s h = ground arith

  find_found :
      (fuel : ℕ) (s : Bytes) (k : ℕ)
      → index_fold_ascii s (b'<' ∷ tag) ≡ some k
      → find_loop (suc fuel) at_end (b'<' ∷ tag) s ≡ (
          if ends_name at_end (drop (k + suc (length tag)) s)
          then some k
          else shift
              (k + suc (length tag))
              (find_loop fuel at_end (b'<' ∷ tag) (drop (k + suc (length tag)) s)))
  unfolding find_loop
  find_found fuel s k h = ground arith

  find_loop-eq-first :
      (fuel : ℕ) (s : Bytes)
      → length s < fuel
      → find_loop fuel at_end (b'<' ∷ tag) s ≡ first_at at_end (b'<' ∷ tag) s
  find_loop-eq-first zero s lt = absurd (omega arith)
  find_loop-eq-first (suc fuel) s lt = elim (Option-cases (index_fold_ascii s (b'<' ∷ tag))) [
    | inl missing ↦ find_none fuel s missing ∙ sym (index_none s missing)
    | inr (k, found) ↦
        let (prefix, same) = index_some s k found in
        let u = drop k s in
        let after = drop (suc (length tag)) u in
        let e = drop-drop k (suc (length tag)) s in
        elim (Bool-cases (ends_name at_end after)) [
          | inl ends ↦
              let here : is_here at_end (b'<' ∷ tag) u ≡ true = rw prefix ends in
              let at_k : k + 0 ≡ k = omega arith in
              find_found fuel s k found
              ∙ rw (e, ends) (sym (same ∙ ap (shift k) (is_here_first u here) ∙ ap some at_k))
          | inr goes_on ↦
              let shorter : length after < fuel =
                omega (arith, length-drop-le k s, has_fold_prefix-length u (b'<' ∷ tag) prefix) in
              let rest = find_loop-eq-first fuel after shorter in
              find_found fuel s k found
              ∙ rw (e, goes_on)
                  (ap (shift (k + suc (length tag))) rest
                    ∙ sym (
                        same
                        ∙ ap (shift k) (past_tag u prefix goes_on)
                        ∙ shift-shift k (suc (length tag)) _))
        ]
  ]

module _ (tag : Bytes) (name : IsName tag) where
  -- For a tag name without "<", the two searches are those at every position: no start tag and no end tag is overlooked, and none
  -- is taken inside a longer name.
  pub find_element-eq-first :
      (s : Bytes)
      → (find_element_open s (b'<' ∷ tag) ≡ first_at true (b'<' ∷ tag) s)
        × (find_element_close s (b'<' ∷ (b'/' ∷ tag)) ≡ first_at false (b'<' ∷ (b'/' ∷ tag)) s)
  unfolding find_element_open find_element_close
  find_element-eq-first s = (
    find_loop-eq-first true tag name (suc (length s)) s (omega arith),
    find_loop-eq-first false (b'/' ∷ tag) name (suc (length s)) s (omega arith),
  )
