-- ===== src/Prelude/Decimal.antt =====
-- Go's strconv.Itoa on a number that is not negative, and the number that digits stand for.
use Prim.Native.Nat.{ℕ, zero, suc, ◌+◌, ◌-◌, ◌*◌, ◌/◌, ◌%◌, ◌<◌}
use mathlib.Core.Path.{◌≡◌}
use mathlib.Core.List.{[], ◌∷◌}
use native.Mathlib.Omega.{arith}
use webhttp.Prelude.Tests.{ltb, if◌then◌else◌}
use webhttp.Prelude.Text.{Bytes}

-- the digits of `n` in front of `tail`; `n` rounds are more than enough
digits : ℕ → ℕ → Bytes → Bytes
digits zero n tail = tail
digits (suc fuel) n tail =
    let more = digits fuel (n / 10) ((b'0' + n % 10) ∷ tail) in
    if ltb n 10 then (b'0' + n) ∷ tail else more

unfoldable pub itoa : ℕ → Bytes
unfolding digits
itoa n = digits (suc n) n []

-- the number that decimal digits stand for, behind the digits read so far
unfoldable pub number_from : ℕ → Bytes → ℕ
number_from acc [] = acc
number_from acc (c ∷ s) = number_from (acc * 10 + (c - b'0')) s

number_from-digits :
    (fuel n : ℕ) (tail : Bytes) → n < fuel → number_from 0 (digits fuel n tail) ≡ number_from n tail
unfolding digits number_from
number_from-digits zero n tail h = absurd (omega arith)
number_from-digits (suc fuel) n tail h =
    ground (arith, number_from-digits fuel (n / 10) ((b'0' + n % 10) ∷ tail))

pub number_from-itoa : (n : ℕ) → number_from 0 (itoa n) ≡ n
unfolding itoa number_from
number_from-itoa n = number_from-digits (suc n) n [] (omega arith)
