-- ===== src/Methods/Allow.antt =====
-- The methods that an Allow value lists.
use webhttp.Prelude.{
  Bool, true, false, ◌&&◌, ◌||◌, not, List, [], ◌∷◌, ◌++◌, ◌≡◌, refl, sym, ◌∙◌, ap, inl, inr,
  Bool-cases, is_nil, Bytes, codes, eq_bytes, eq_bytes_iff, has, join, arith,
}
use webhttp.Methods.{unique_methods, allow_value}

abbrev pub distinct : List Bytes → Bool
distinct [] = true
distinct (m ∷ ms) = not (has m ms) && distinct ms

eq_bytes_comm : (s t : Bytes) → eq_bytes s t ≡ eq_bytes t s
eq_bytes_comm s t = ground (arith, eq_bytes_iff s t, eq_bytes_iff t s)

has-append : (m x : Bytes) (us : List Bytes) → has m (us ++ x ∷ []) ≡ (has m us || eq_bytes x m)
has-append m x [] = ground arith
has-append m x (u ∷ us) = ground (arith, has-append m x us)

distinct-append :
    (x : Bytes) (us : List Bytes)
    → distinct us ≡ true
    → has x us ≡ false
    → distinct (us ++ x ∷ []) ≡ true
distinct-append x [] h new = refl
distinct-append x (u ∷ us) h new =
    rw (has-append u x us, eq_bytes_comm x u) (ground (arith, h, new, distinct-append x us))

same_has : (m x : Bytes) (us : List Bytes) → has x us ≡ true → eq_bytes x m ≡ true → has m us ≡ true
same_has m x us h e = let eq : x ≡ m = (eq_bytes_iff x m).0 e in sym (ap (λ k. has k us) eq) ∙ h

unique_methods-distinct :
    (us ms : List Bytes) → distinct us ≡ true → distinct (unique_methods us ms) ≡ true
unfolding unique_methods
unique_methods-distinct us [] h = h
unique_methods-distinct us (x ∷ ms) h = elim (Bool-cases (is_nil x || has x us)) [
  | inl skip ↦ rw skip (unique_methods-distinct us ms h)
  | inr keep ↦
      let new : has x us ≡ false = ground arith in
      rw keep (unique_methods-distinct (us ++ x ∷ []) ms (distinct-append x us h new))
]

nil_has : (m x : Bytes) → is_nil x ≡ true → eq_bytes x m ≡ true → is_nil m ≡ true
nil_has [] x h e = refl
nil_has (c ∷ m) [] h e = ground arith
nil_has (c ∷ m) (d ∷ x) h e = ground arith

has-unique_methods :
    (m : Bytes) (us ms : List Bytes)
    → has m (unique_methods us ms) ≡ (has m us || (not (is_nil m) && has m ms))
unfolding unique_methods
has-unique_methods m us [] = ground arith
has-unique_methods m us (x ∷ ms) = elim (Bool-cases (is_nil x)) [
  | inl empty ↦ rw empty (ground (arith, has-unique_methods m us ms, nil_has m x empty))
  | inr full ↦ elim (Bool-cases (has x us)) [
    | inl old ↦ rw (full, old) (ground (arith, has-unique_methods m us ms, same_has m x us old))
    | inr new ↦
        rw (full, new)
          (ground (arith, has-unique_methods m (us ++ x ∷ []) ms, has-append m x us, nil_has x m))
  ]
]

-- The Allow value of two methods or more is the join of a list with no repetitions, whose members are
-- exactly the methods that are not empty.
pub allow_value-lists :
    (a b : Bytes) (ms : List Bytes)
    → (us : List Bytes) × (allow_value (a ∷ (b ∷ ms)) ≡ join (codes ", ") us)
      × (distinct us ≡ true)
      × ((m : Bytes) → has m us ≡ (not (is_nil m) && has m (a ∷ (b ∷ ms))))
unfolding allow_value
allow_value-lists a b ms =
    let us = unique_methods [] (a ∷ (b ∷ ms)) in
    (
      us,
      refl,
      unique_methods-distinct [] (a ∷ (b ∷ ms)) refl,
      λ m. has-unique_methods m [] (a ∷ (b ∷ ms)),
    )
