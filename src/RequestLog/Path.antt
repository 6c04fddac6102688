-- ===== src/RequestLog/Path.antt =====
-- reqlog.go: the path and the method as they are logged, bounded and templated.
pub mod Bounds
pub mod Runes
pub mod Template
use webhttp.Prelude.{
  ℕ, zero, suc, ◌/◌, Bool, true, false, ◌&&◌, not, List, [], ◌∷◌, ◌++◌, Option, none, some, ◌==◌,
  leb, ltb, if◌then◌else◌, is_nil, length, take, drop, Bytes, codes, cut_prefix,
}
use webhttp.Http.{Request}

abbrev pub truncated_path_marker : Bytes
truncated_path_marker = codes "...(truncated)"

-- utf8.RuneStart: any byte but 10xxxxxx
abbrev pub rune_start : ℕ → Bool
rune_start c = not (c / 64 == 2)

-- `p[i]` inside the text
abbrev pub byte_at : Bytes → ℕ → ℕ
byte_at [] i = 0
byte_at (c ∷ s) zero = c
byte_at (c ∷ s) (suc i) = byte_at s i

-- `for cut > 0 && !utf8.RuneStart(p[cut]) { cut-- }`
unfoldable pub rune_cut : Bytes → ℕ → ℕ
rune_cut p zero = 0
rune_cut p (suc n) =
    let rest = rune_cut p n in if not (rune_start (byte_at p (suc n))) then rest else suc n

unfoldable pub bound_logged_path : Bytes → ℕ → Bytes
bound_logged_path p max_len =
    if leb (length p) max_len then p else take (rune_cut p max_len) p ++ truncated_path_marker

abbrev pub max_logged_method : ℕ
max_logged_method = 24

abbrev pub overlong_method_marker : Bytes
overlong_method_marker = codes "(overlong)"

unfoldable pub bound_logged_method : Bytes → Bytes
bound_logged_method m = if leb (length m) max_logged_method then m else overlong_method_marker

abbrev pub unmatched_template_marker : Bytes
unmatched_template_marker = codes "(unmatched)"

-- `strings.HasPrefix(s, prefix)`
abbrev pub has_prefix : Bytes → Bytes → Bool
has_prefix s prefix = elim (cut_prefix prefix s) [ none ↦ false | some _ ↦ true ]

-- the loop over the prefixes, `under` the longest match so far
unfoldable pub longest_prefix : Bytes → Bytes → List Bytes → Bytes
longest_prefix p under [] = under
longest_prefix p under (prefix ∷ prefixes) =
    longest_prefix p
      (if has_prefix p prefix && ltb (length under) (length prefix) then prefix else under) prefixes

-- `pattern[strings.Index(pattern, "/"):]`, `none` where the index is negative
abbrev pub from_slash : Bytes → Option Bytes
from_slash [] = none
from_slash (c ∷ s) = if c == b'/' then some (c ∷ s) else from_slash s

unfoldable pub template_path : Request → List Bytes → Bytes
template_path r prefixes =
    let under = longest_prefix r.path [] prefixes in
    if is_nil under then r.path else elim (from_slash r.pattern) [
      | some route ↦ route
      | none ↦ under ++ unmatched_template_marker
    ]
