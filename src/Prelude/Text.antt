-- ===== src/Prelude/Text.antt =====
-- A Go string is its list of bytes. The functions of Go's `strings` that the code calls.
use Prim.Native.Nat.{ℕ}
use Prim.Native.Char.{code}
use Prim.Native.String.{String}
use mathlib.Core.Path.{◌≡◌}
use mathlib.Core.Logic.{◌↔◌, ◌≢◌}
use mathlib.Core.Bool.{Bool, true, false, ◌&&◌, ◌||◌}
use mathlib.Core.Option.{Option, none, some}
use mathlib.Core.List.{List, [], ◌∷◌, ◌++◌}
use native.Mathlib.Omega.{arith}
use webhttp.Prelude.Tests.{◌==◌, if◌then◌else◌}
use webhttp.Prelude.Lists.{is_nil}

abbrev pub Bytes : Type 0
Bytes = List ℕ

-- The code points of a literal; its bytes, when it is ASCII.
abbrev pub codes : String → Bytes
codes String.[] = []
codes (String.◌∷◌ c s) = code c ∷ codes s

-- `s == t`
abbrev pub eq_bytes : Bytes → Bytes → Bool
eq_bytes [] [] = true
eq_bytes (x ∷ s) (y ∷ t) = x == y && eq_bytes s t
eq_bytes _ _ = false

pub eq_bytes_iff : (s t : Bytes) → (eq_bytes s t ≡ true) ↔ (s ≡ t)
eq_bytes_iff [] [] = ground arith
eq_bytes_iff [] (y ∷ t) = ground arith
eq_bytes_iff (x ∷ s) [] = ground arith
eq_bytes_iff (x ∷ s) (y ∷ t) = ground (arith, eq_bytes_iff s t)

-- `strings.IndexByte(s, b) >= 0`
abbrev pub contains_byte : ℕ → Bytes → Bool
contains_byte b [] = false
contains_byte b (c ∷ s) = if c == b then true else contains_byte b s

-- `strings.CutPrefix`; `none` is `ok == false`
abbrev pub cut_prefix : Bytes → Bytes → Option Bytes
cut_prefix [] s = some s
cut_prefix (p ∷ ps) [] = none
cut_prefix (p ∷ ps) (c ∷ s) = if c == p then cut_prefix ps s else none

-- `strings.Cut(s, b)` for a one-byte separator; `none` is `found == false`
abbrev pub cut_byte : ℕ → Bytes → Option (Bytes × Bytes)
cut_byte b [] = none
cut_byte b (c ∷ s) =
    if c == b
    then some ([], s)
    else elim (cut_byte b s) [ none ↦ none | some (before, after) ↦ some (c ∷ before, after) ]

-- `strings.Trim(s, cutset)`, the cut set as a test
abbrev pub trim_left : (ℕ → Bool) → Bytes → Bytes
trim_left p [] = []
trim_left p (c ∷ s) = if p c then trim_left p s else c ∷ s

abbrev pub trim_right : (ℕ → Bool) → Bytes → Bytes
trim_right p [] = []
trim_right p (c ∷ s) = let rest = trim_right p s in if p c && is_nil rest then [] else c ∷ rest

abbrev pub trim : (ℕ → Bool) → Bytes → Bytes
trim p s = trim_right p (trim_left p s)

-- `strings.Split(s, b)` for a one-byte separator
abbrev pub add_head : ℕ → List Bytes → List Bytes
add_head c [] = (c ∷ []) ∷ []
add_head c (p ∷ ps) = (c ∷ p) ∷ ps

abbrev pub split_byte : ℕ → Bytes → List Bytes
split_byte b [] = [] ∷ []
split_byte b (c ∷ s) = let rest = split_byte b s in if c == b then [] ∷ rest else add_head c rest

-- `strings.Join(parts, sep)`
abbrev pub join : Bytes → List Bytes → Bytes
join sep [] = []
join sep (p ∷ []) = p
join sep (p ∷ (q ∷ qs)) = p ++ (sep ++ join sep (q ∷ qs))

-- `strings.TrimSuffix(s, b)` for a one-byte suffix
abbrev pub trim_suffix : ℕ → Bytes → Bytes
trim_suffix b [] = []
trim_suffix b (c ∷ []) = if c == b then [] else c ∷ []
trim_suffix b (c ∷ (d ∷ s)) = c ∷ trim_suffix b (d ∷ s)

-- `_, ok := m[s]` in a set of texts
abbrev pub has : Bytes → List Bytes → Bool
has s [] = false
has s (t ∷ ts) = eq_bytes t s || has s ts

-- `m[s] = struct{}{}` in a set of texts
abbrev pub insert : Bytes → List Bytes → List Bytes
insert s ts = if has s ts then ts else ts ++ s ∷ []

pub split_byte-ne-nil : (b : ℕ) (s : Bytes) → split_byte b s ≢ []
split_byte-ne-nil b [] = cc
split_byte-ne-nil b (c ∷ s) = grind arith
