-- ===== src/AsciiFold.antt =====
-- asciifold.go: ASCII-only case folding of byte strings.
pub mod Laws
mod Tests
use webhttp.Prelude.{
  ℕ, ◌+◌, suc, Bool, true, false, ◌&&◌, not, [], ◌∷◌, ◌++◌, map, within, ◌==◌, if◌then◌else◌,
  length, take, drop, Bytes,
}

abbrev pub is_upper : ℕ → Bool
is_upper c = within b'A' b'Z' c

unfoldable pub lower_ascii : ℕ → ℕ
lower_ascii c = if is_upper c then c + 32 else c

-- the loop of `equalASCIIFold`, over texts of one length
fold_loop : Bytes → Bytes → Bool
fold_loop (x ∷ s) (y ∷ t) = if not (lower_ascii x == lower_ascii y) then false else fold_loop s t
fold_loop _ _ = true

unfoldable pub equal_ascii_fold : Bytes → Bytes → Bool
unfolding fold_loop lower_ascii
equal_ascii_fold s t = if not (length s == length t) then false else fold_loop s t

-- the first loop of `lowerASCIIString`: the index of the first upper-case letter, or the length
first_upper : Bytes → ℕ
first_upper [] = 0
first_upper (c ∷ s) = let rest = first_upper s in if is_upper c then 0 else suc rest

unfoldable pub lower_ascii_string : Bytes → Bytes
unfolding first_upper lower_ascii
lower_ascii_string s =
    let i = first_upper s in if i == length s then s else take i s ++ map lower_ascii (drop i s)
