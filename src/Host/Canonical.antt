-- ===== src/Host/Canonical.antt =====
-- The canonical form of a Host value: canonicalising it again changes nothing.
use webhttp.Prelude.{
  ℕ, Bool, true, false, ◌||◌, List, [], ◌∷◌, map, none, some, ◌≡◌, ◌≢◌, refl, ap, ◌∙◌, ◌==◌, within,
  Bytes, codes, All, All-map, split_byte, split_byte-ne-nil, add_head, trim_suffix, cut_byte,
  cut_prefix, contains_byte, arith, Bool-cases, Option-cases, inl, inr,
}
use webhttp.AsciiFold.{lower_ascii, lower_ascii_string}
use webhttp.AsciiFold.Laws.{lower_ascii_string-eq-map}
use webhttp.Host.{
  label_bytes, labels, valid_hostname, cut_port, bracket_rest, HostText, canonical_bracketed,
  canonical_stripped, canonical_name, canonical_host,
}

abbrev label_byte : ℕ → Bool
label_byte c = within b'0' b'9' c || within b'a' b'z' c || c == b'-' || c == b'_'

abbrev IsLabelByte : ℕ → Type 0
IsLabelByte c = label_byte c ≡ true

abbrev IsHostByte : ℕ → Type 0
IsHostByte c = (label_byte c || c == b'.') ≡ true

abbrev IsLabel : Bytes → Type 0
IsLabel l = All IsLabelByte l × (l ≢ [])

label_bytes-All : (s : Bytes) (n : Bool) (m : Bool) → label_bytes s n ≡ some m → All IsLabelByte s
unfolding label_bytes
label_bytes-All [] n m h = tt
label_bytes-All (c ∷ s) n m h = ground (arith, label_bytes-All s n m, label_bytes-All s true m)

labels-IsLabel : (ls : List Bytes) (n : Bool) → labels ls n ≡ true → All IsLabel ls
unfolding labels
labels-IsLabel [] n h = tt
labels-IsLabel (l ∷ ls) n h = elim (Option-cases (label_bytes l n)) [
  | inl bad ↦ absurd (ground arith)
  | inr (m, ok) ↦ ((label_bytes-All l n m ok, ground arith), labels-IsLabel ls m (ground arith))
]

add_head-All :
    (c : ℕ) (ps : List Bytes)
    → All (All IsLabelByte) (add_head c ps)
    → IsLabelByte c × All (All IsLabelByte) ps
add_head-All c [] h = (h.0.0, tt)
add_head-All c (p ∷ ps) h = (h.0.0, (h.0.1, h.1))

split-All : (s : Bytes) → All (All IsLabelByte) (split_byte b'.' s) → All IsHostByte s
split-All [] h = tt
split-All (c ∷ s) h = elim (Bool-cases (c == b'.')) [
  | inl dot ↦
      let rest : All (All IsLabelByte) ([] ∷ split_byte b'.' s) = rw dot at h in
      (ground arith, split-All s rest.1)
  | inr other ↦
      let rest : All (All IsLabelByte) (add_head c (split_byte b'.' s)) = rw other at h in
      let (head, tail) = add_head-All c (split_byte b'.' s) rest in (ground arith, split-All s tail)
]

valid_hostname-All : (s : Bytes) → valid_hostname s ≡ true → All IsHostByte s
unfolding valid_hostname
valid_hostname-All s h = split-All s (All-map (λ l p. p.0) _ (labels-IsLabel _ false h))

lower_byte : (c : ℕ) → IsHostByte c → lower_ascii c ≡ c
unfolding lower_ascii
lower_byte c h = ground arith

map_lower_of_host : (s : Bytes) → All IsHostByte s → map lower_ascii s ≡ s
map_lower_of_host [] h = refl
map_lower_of_host (c ∷ s) (p, h) = cc (lower_byte c p, map_lower_of_host s h)

lower_of_host : (s : Bytes) → All IsHostByte s → lower_ascii_string s ≡ s
lower_of_host s h = lower_ascii_string-eq-map s ∙ map_lower_of_host s h

cut_colon_of_host : (s : Bytes) → All IsHostByte s → cut_byte b':' s ≡ none
cut_colon_of_host [] h = refl
cut_colon_of_host (c ∷ s) (p, h) = ground (arith, cut_colon_of_host s h)

cut_port_of_host : (s : Bytes) → All IsHostByte s → cut_port s ≡ some s
unfolding cut_port
cut_port_of_host s h = rw (cut_colon_of_host s h, cut_port)

no_bracket : (s : Bytes) → All IsHostByte s → cut_prefix (codes "[") s ≡ none
no_bracket [] h = refl
no_bracket (c ∷ s) (p, h) = ground arith

-- The last piece of a split is not empty.
abbrev LastNonEmpty : List Bytes → Type 0
LastNonEmpty [] = Unit
LastNonEmpty (p ∷ []) = p ≢ []
LastNonEmpty (p ∷ (q ∷ ps)) = LastNonEmpty (q ∷ ps)

last_of_All : (ps : List Bytes) → All IsLabel ps → LastNonEmpty ps
last_of_All [] h = tt
last_of_All (p ∷ []) h = h.0.1
last_of_All (p ∷ (q ∷ ps)) h = last_of_All (q ∷ ps) h.1

behind_nil : (ps : List Bytes) → LastNonEmpty ([] ∷ ps) → LastNonEmpty ps
behind_nil [] h = tt
behind_nil (p ∷ ps) h = h

behind_dot :
    (c : ℕ) (ps : List Bytes) → ps ≢ [] → LastNonEmpty ((c ∷ []) ∷ ps) → LastNonEmpty ([] ∷ ps)
behind_dot c [] n h = absurd (n refl)
behind_dot c (p ∷ ps) n h = h

behind_byte :
    (c d : ℕ) (ps : List Bytes)
    → LastNonEmpty (add_head c (add_head d ps))
    → LastNonEmpty (add_head d ps)
behind_byte c d [] h = cc
behind_byte c d (p ∷ []) h = cc
behind_byte c d (p ∷ (q ∷ ps)) h = h

LastNonEmpty-tail :
    (c d : ℕ) (s : Bytes)
    → LastNonEmpty (split_byte b'.' (c ∷ (d ∷ s)))
    → LastNonEmpty (split_byte b'.' (d ∷ s))
LastNonEmpty-tail c d s h = ground (
  arith,
  behind_nil (split_byte b'.' (d ∷ s)),
  behind_dot c (split_byte b'.' s) (split_byte-ne-nil b'.' s),
  behind_byte c d (split_byte b'.' s),
)

trim_of_LastNonEmpty : (s : Bytes) → LastNonEmpty (split_byte b'.' s) → trim_suffix b'.' s ≡ s
trim_of_LastNonEmpty [] h = refl
trim_of_LastNonEmpty (c ∷ []) h = ground arith
trim_of_LastNonEmpty (c ∷ (d ∷ s)) h =
    ap (◌∷◌ c) (trim_of_LastNonEmpty (d ∷ s) (LastNonEmpty-tail c d s h))

trim_of_host : (s : Bytes) → valid_hostname s ≡ true → trim_suffix b'.' s ≡ s
unfolding valid_hostname
trim_of_host s h = trim_of_LastNonEmpty s (last_of_All _ (labels-IsLabel _ false h))

empty_invalid : valid_hostname [] ≡ false
unfolding valid_hostname labels
empty_invalid = refl

module _ (text : HostText) where
  open text use {Ip, parse_ip, ip_string}

  canonical_name_of_host :
      (s : Bytes) → parse_ip s ≡ none → valid_hostname s ≡ true → canonical_name text s ≡ s
  unfolding canonical_name canonical_stripped
  canonical_name_of_host s no_ip valid =
      let bytes = valid_hostname-All s valid in
      let same : trim_suffix b'.' (lower_ascii_string s) ≡ s =
        ap (trim_suffix b'.') (lower_of_host s bytes) ∙ trim_of_host s valid in
      ap (canonical_stripped text) same ∙ rw (no_ip, valid, canonical_stripped)

  -- A valid name that is no address is its own canonical form.
  canonical_of_host :
      (s : Bytes) → parse_ip s ≡ none → valid_hostname s ≡ true → canonical_host text s ≡ s
  unfolding canonical_host
  canonical_of_host s no_ip valid =
      let bytes = valid_hostname-All s valid in
      rw (no_ip, no_bracket s bytes, cut_port_of_host s bytes, canonical_host)
        (canonical_name_of_host s no_ip valid)

  -- What a canonical form can be: nothing, the text of an address, or a valid name that is none.
  pub data IsCanonical (s : Bytes) : Type 0 where
    refused : s ≡ [] → IsCanonical s
    address : (t : Bytes) (ip : Ip) → parse_ip t ≡ some ip → s ≡ ip_string ip → IsCanonical s
    name : parse_ip s ≡ none → valid_hostname s ≡ true → IsCanonical s

  canonical_stripped-IsCanonical : (host : Bytes) → IsCanonical (canonical_stripped text host)
  unfolding canonical_stripped
  canonical_stripped-IsCanonical host = elim (Option-cases (parse_ip host)) [
    | inr (ip, found) ↦ rw (found, canonical_stripped) (address host ip found refl)
    | inl missing ↦ elim (Bool-cases (valid_hostname host)) [
      | inl valid ↦ rw (missing, valid, canonical_stripped) (name missing valid)
      | inr bad ↦ rw (missing, bad, canonical_stripped) (refused refl)
    ]
  ]

  canonical_name-IsCanonical : (n : Bytes) → IsCanonical (canonical_name text n)
  unfolding canonical_name
  canonical_name-IsCanonical n =
      canonical_stripped-IsCanonical (trim_suffix b'.' (lower_ascii_string n))

  canonical_bracketed-IsCanonical : (s : Bytes) → IsCanonical (canonical_bracketed text s)
  unfolding canonical_bracketed
  canonical_bracketed-IsCanonical s = elim (Option-cases (cut_byte b']' s)) [
    | inl open_ ↦ rw (open_, canonical_bracketed) (refused refl)
    | inr ((inner, rest), cut) ↦ elim (Bool-cases (bracket_rest rest)) [
      | inr bad ↦ rw (cut, bad, canonical_bracketed) (refused refl)
      | inl good ↦ elim (Option-cases (parse_ip inner)) [
        | inl missing ↦ rw (cut, good, missing, canonical_bracketed) (refused refl)
        | inr (ip, found) ↦ elim (Bool-cases (contains_byte b':' inner)) [
          | inl six ↦ rw (cut, good, found, six, canonical_bracketed) (address inner ip found refl)
          | inr four ↦ rw (cut, good, found, four, canonical_bracketed) (refused refl)
        ]
      ]
    ]
  ]

  canonical_host-IsCanonical : (s : Bytes) → IsCanonical (canonical_host text s)
  unfolding canonical_host
  canonical_host-IsCanonical s = elim (Option-cases (parse_ip s)) [
    | inr (ip, found) ↦ rw (found, canonical_host) (address s ip found refl)
    | inl missing ↦ elim (Option-cases (cut_prefix (codes "[") s)) [
      | inr (inner, cut) ↦ rw (missing, cut, canonical_host) (canonical_bracketed-IsCanonical inner)
      | inl plain ↦ elim (Option-cases (cut_port s)) [
        | inl bad ↦ rw (missing, plain, bad, canonical_host) (refused refl)
        | inr (n, port) ↦ rw (missing, plain, port, canonical_host) (canonical_name-IsCanonical n)
      ]
    ]
  ]

  stripped_empty : parse_ip [] ≡ none → canonical_stripped text [] ≡ []
  unfolding canonical_stripped
  stripped_empty h = rw (h, empty_invalid, canonical_stripped)

  canonical_empty : parse_ip [] ≡ none → canonical_host text [] ≡ []
  unfolding canonical_host cut_port canonical_name lower_ascii_string
  canonical_empty h = rw (h, canonical_host) (stripped_empty h)

  -- Canonicalising twice is canonicalising once, where the text of an address that was parsed parses
  -- back to it and the empty text is no address.
  pub canonical_host_idem :
      ((t : Bytes) (ip : Ip) → parse_ip t ≡ some ip → parse_ip (ip_string ip) ≡ some ip)
      → parse_ip [] ≡ none
      → (s : Bytes) → canonical_host text (canonical_host text s) ≡ canonical_host text s
  canonical_host_idem reparse no_empty s = go (canonical_host text s) (canonical_host-IsCanonical s)
    where
      go : (c : Bytes) → IsCanonical c → canonical_host text c ≡ c
      go c (refused e) = rw e (canonical_empty no_empty)
      go c (address t ip found e) =
          rw e (unfold canonical_host in rw (reparse t ip found, canonical_host))
      go c (name no_ip valid) = canonical_of_host c no_ip valid
