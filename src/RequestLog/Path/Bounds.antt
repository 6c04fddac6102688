-- ===== src/RequestLog/Path/Bounds.antt =====
-- How long a logged path and a logged method can be.
use webhttp.Prelude.{
  ℕ, zero, suc, ◌+◌, ◌≤◌, true, [], ◌∷◌, ◌≡◌, ◌⊎◌, inl, inr, refl, length, take, Bytes, arith,
  length-append, Bool-cases,
}
use webhttp.RequestLog.Path.{
  truncated_path_marker, rune_start, byte_at, rune_cut, bound_logged_path, bound_logged_method,
  max_logged_method,
}

pub rune_cut-le : (p : Bytes) (n : ℕ) → rune_cut p n ≤ n
unfolding rune_cut
rune_cut-le p zero = omega arith
rune_cut-le p (suc n) = ground (arith, rune_cut-le p n)

pub rune_cut-start :
    (p : Bytes) (n : ℕ) → (rune_cut p n ≡ 0) ⊎ (rune_start (byte_at p (rune_cut p n)) ≡ true)
unfolding rune_cut
rune_cut-start p zero = inl refl
rune_cut-start p (suc n) = elim (Bool-cases (rune_start (byte_at p (suc n)))) [
  | inl start ↦ rw start (inr start)
  | inr inside ↦ rw inside (rune_cut-start p n)
]

length-take-le : (n : ℕ) (s : Bytes) → length (take n s) ≤ n
length-take-le zero s = omega arith
length-take-le (suc n) [] = omega arith
length-take-le (suc n) (c ∷ s) = omega (arith, length-take-le n s)

-- However long the path and the method of a request are, what is logged of the path has at most the
-- configured length and that of the marker, and what is logged of the method at most 24 bytes.
pub length-bound_logged :
    (p m : Bytes) (n : ℕ)
    → (length (bound_logged_path p n) ≤ n + 14)
      × (length (bound_logged_method m) ≤ max_logged_method)
unfolding bound_logged_path bound_logged_method
length-bound_logged p m n = (
  ground (
    arith,
    length-append (take (rune_cut p n) p) truncated_path_marker,
    length-take-le (rune_cut p n) p,
    rune_cut-le p n,
  ),
  ground arith,
)
