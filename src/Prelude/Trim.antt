-- ===== src/Prelude/Trim.antt =====
-- Trimming both ends by a byte test: the result has nothing left to trim.
use Prim.Native.Nat.{ℕ}
use mathlib.Core.Path.{◌≡◌, refl, ◌∙◌, ap}
use mathlib.Core.Bool.{Bool, false}
use mathlib.Core.List.{[], ◌∷◌}
use native.Mathlib.Omega.{arith}
use webhttp.Prelude.Lists.{All}
use webhttp.Prelude.Text.{Bytes, trim_left, trim_right, trim}

module _ (p : ℕ → Bool) where
  -- The first byte stays under `trim_left`.
  abbrev HasNoLead : Bytes → Type 0
  HasNoLead [] = Unit
  HasNoLead (c ∷ s) = p c ≡ false

  trim_left-HasNoLead : (s : Bytes) → HasNoLead (trim_left p s)
  trim_left-HasNoLead [] = tt
  trim_left-HasNoLead (c ∷ s) = ground (arith, trim_left-HasNoLead s)

  trim_left_of_HasNoLead : (s : Bytes) → HasNoLead s → trim_left p s ≡ s
  trim_left_of_HasNoLead [] h = refl
  trim_left_of_HasNoLead (c ∷ s) h = rw h

  trim_right-HasNoLead : (s : Bytes) → HasNoLead s → HasNoLead (trim_right p s)
  trim_right-HasNoLead [] h = tt
  trim_right-HasNoLead (c ∷ s) h = ground arith

  trim_right_idem : (s : Bytes) → trim_right p (trim_right p s) ≡ trim_right p s
  trim_right_idem [] = refl
  trim_right_idem (c ∷ s) = ground (arith, trim_right_idem s)

  pub trim_idem : (s : Bytes) → trim p (trim p s) ≡ trim p s
  trim_idem s =
      ap (trim_right p)
        (trim_left_of_HasNoLead (trim p s) (trim_right-HasNoLead _ (trim_left-HasNoLead s)))
      ∙ trim_right_idem (trim_left p s)

  pub All-trim_left {κ} : (P : ℕ → Type κ) (s : Bytes) → All P s → All P (trim_left p s)
  All-trim_left P [] h = h
  All-trim_left P (c ∷ s) h = ground (arith, All-trim_left P s h.1)

  pub All-trim_right {κ} : (P : ℕ → Type κ) (s : Bytes) → All P s → All P (trim_right p s)
  All-trim_right P [] h = h
  All-trim_right P (c ∷ s) h = ground (arith, All-trim_right P s h.1)
