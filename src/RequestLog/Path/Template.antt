-- ===== src/RequestLog/Path/Template.antt =====
-- Which path is logged for a request under a templated prefix.
use webhttp.Prelude.{
  ◌≤◌, Bool, true, ◌&&◌, ◌||◌, not, List, [], ◌∷◌, ◌++◌, none, some, ◌≡◌, ◌⊎◌, inl, inr, refl, leb,
  ltb, if◌then◌else◌, is_nil, length, Bytes, arith, Bool-cases, Option-cases, all, has,
  eq_bytes_iff,
}
use webhttp.Http.{Request}
use webhttp.RequestLog.Path.{
  has_prefix, longest_prefix, from_slash, template_path, unmatched_template_marker,
}

-- `q` is no prefix of the path, or no longer than `under`
abbrev pub no_longer : Bytes → Bytes → Bytes → Bool
no_longer p under q = not (has_prefix p q) || leb (length q) (length under)

longest_prefix-grows :
    (p under : Bytes) (ps : List Bytes) → length under ≤ length (longest_prefix p under ps)
unfolding longest_prefix
longest_prefix-grows p under [] = omega arith
longest_prefix-grows p under (q ∷ ps) =
    ground (arith, longest_prefix-grows p q ps, longest_prefix-grows p under ps)

longest_prefix-max :
    (p under : Bytes) (ps : List Bytes) → all (no_longer p (longest_prefix p under ps)) ps ≡ true
unfolding longest_prefix
longest_prefix-max p under [] = refl
longest_prefix-max p under (q ∷ ps) = ground (
  arith,
  longest_prefix-max p q ps,
  longest_prefix-max p under ps,
  longest_prefix-grows p q ps,
  longest_prefix-grows p under ps,
)

listed_cons :
    (p under q u : Bytes) (ps : List Bytes)
    → (u ≡ (if has_prefix p q && ltb (length under) (length q) then q else under))
      ⊎ ((has u ps ≡ true) × (has_prefix p u ≡ true))
    → (u ≡ under) ⊎ ((has u (q ∷ ps) ≡ true) × (has_prefix p u ≡ true))
listed_cons p under q u ps (inr (listed, matches)) = inr (ground arith, matches)
listed_cons p under q u ps (inl e) =
    elim (Bool-cases (has_prefix p q && ltb (length under) (length q))) [
      | inr passed ↦ inl (rw passed at e)
      | inl better ↦
          let same : u ≡ q = rw better at e in
          inr (rw same (ground (arith, eq_bytes_iff q q)), rw same (ground arith))
    ]

longest_prefix-listed :
    (p under : Bytes) (ps : List Bytes)
    → (longest_prefix p under ps ≡ under)
      ⊎ ((has (longest_prefix p under ps) ps ≡ true)
          × (has_prefix p (longest_prefix p under ps) ≡ true))
unfolding longest_prefix
longest_prefix-listed p under [] = inl refl
longest_prefix-listed p under (q ∷ ps) = listed_cons p under q _ ps (
    longest_prefix-listed p (if has_prefix p q && ltb (length under) (length q) then q else under)
      ps)

pub record IsLongest (p : Bytes) (prefixes : List Bytes) (under : Bytes) : Type 0 where
  pub listed : has under prefixes ≡ true
  pub matches : has_prefix p under ≡ true
  pub longest : all (no_longer p under) prefixes ≡ true

pub data IsTemplate (r : Request) (prefixes : List Bytes) (path : Bytes) : Type 0 where
  -- under no prefix: the path as it is
  outside : all (no_longer r.path []) prefixes ≡ true → path ≡ r.path → IsTemplate r prefixes path
  -- under one: the route's template
  routed :
      (under template : Bytes)
      → IsLongest r.path prefixes under
      → from_slash r.pattern ≡ some template
      → path ≡ template
      → IsTemplate r prefixes path
  -- under one with no route's template: the longest, marked
  unmatched :
      (under : Bytes)
      → IsLongest r.path prefixes under
      → from_slash r.pattern ≡ none
      → path ≡ under ++ unmatched_template_marker
      → IsTemplate r prefixes path

is_nil-eq : (s : Bytes) → is_nil s ≡ true → s ≡ []
is_nil-eq [] h = refl
is_nil-eq (c ∷ s) h = cc

-- A path under none of the prefixes is logged as it is. Under one, what is logged is the route's
-- template, or the longest such prefix with the marker: no byte of the path behind it.
pub template_path-IsTemplate :
    (r : Request) (prefixes : List Bytes) → IsTemplate r prefixes (template_path r prefixes)
unfolding template_path
template_path-IsTemplate r prefixes =
    let under = longest_prefix r.path [] prefixes in
    let max = longest_prefix-max r.path [] prefixes in
    elim (Bool-cases (is_nil under)) [
      | inl empty ↦ rw empty (outside (rw (is_nil-eq under empty) at max) refl)
      | inr some_ ↦
          let longest : IsLongest r.path prefixes under =
            elim (longest_prefix-listed r.path [] prefixes) [
              | inl same ↦ absurd (cc (some_, same))
              | inr (listed, matches) ↦ record { listed = listed; matches = matches; longest = max }
            ] in
          elim (Option-cases (from_slash r.pattern)) [
            | inl missing ↦ rw (some_, missing) (unmatched under longest missing refl)
            | inr (template, found) ↦ rw (some_, found) (routed under template longest found refl)
          ]
    ]
