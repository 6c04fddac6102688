-- ===== src/Float.antt =====
-- What the code uses of float64 and of time.Duration.Seconds, on finite values: an interface. The
-- operations are those of the hardware, each of which rounds its exact result to the nearest value
-- (IEEE 754, which the Go specification names).
use webhttp.Prelude.{ℕ, ◌+◌, ◌-◌, ◌*◌, ◌/◌, ◌≤◌, ◌<◌, Bool, true, false, ◌≡◌}
use Prim.Native.Nat.{◌^◌}

pub record Float64 : Type 1 where
  pub F : Type 0
  -- `float64(n)` and `Duration.Seconds` of nanoseconds
  pub of_int : ℕ → F
  pub seconds : ℕ → F
  pub add : F → F → F
  pub sub : F → F → F
  pub mul : F → F → F
  pub div : F → F → F
  -- `a <= b`
  pub le : F → F → Bool
  -- `int(math.Ceil(a))`, 0 where that is negative
  pub ceil : F → ℕ

-- the smallest power of two whose multiples the laws speak of is one `step`-th
abbrev pub step : ℕ
step = 2 ^ 20

-- Up to 2 ^ 53 of them, the multiples of 1/step are values, so rounding does not cross one: where the
-- exact result is at most such a multiple, so is the rounded one.
pub record IsFloat64 (f : Float64) : Type 0 where
  -- `n` over `step`
  pub grid : ℕ → f.F
  pub of_int-grid : (n : ℕ) → f.of_int n ≡ grid (n * step)
  pub le_trans : (a b c : f.F) → f.le a b ≡ true → f.le b c ≡ true → f.le a c ≡ true
  pub le_total : (a b : f.F) → f.le a b ≡ false → f.le b a ≡ true
  pub grid_mono : (m n : ℕ) → m ≤ n → f.le (grid m) (grid n) ≡ true
  pub grid_reflects : (m n : ℕ) → m ≤ 2 ^ 53 → f.le (grid m) (grid n) ≡ true → m ≤ n
  pub add_le :
      (a b : f.F) (m n : ℕ)
      → f.le a (grid m) ≡ true
      → f.le b (grid n) ≡ true
      → m + n ≤ 2 ^ 53
      → f.le (f.add a b) (grid (m + n)) ≡ true
  pub sub_le :
      (a : f.F) (m n : ℕ)
      → f.le a (grid m) ≡ true
      → n ≤ m
      → m ≤ 2 ^ 53
      → f.le (f.sub a (grid n)) (grid (m - n)) ≡ true
  -- The quotient of two durations by way of a reciprocal. Six roundings, each with a relative error of
  -- 2 ^ -53 at most, are less than a step where the quotient is at most 2 ^ 30.
  pub rate_le :
      (d i : ℕ)
      → 0 < i
      → d * step / i ≤ 2 ^ 50
      → f.le (f.mul (f.seconds d) (f.div (f.of_int 1) (f.seconds i))) (grid (d * step / i + 2))
        ≡ true
  -- Whole numbers are values: their difference is exact, and no time adds nothing.
  pub sub_one : (n : ℕ) → n ≤ 2 ^ 52 → f.sub (f.of_int (n + 1)) (f.of_int 1) ≡ f.of_int n
  pub add_none :
      (n i : ℕ)
      → n ≤ 2 ^ 52
      → 0 < i
      → f.add (f.of_int n) (f.mul (f.seconds 0) (f.div (f.of_int 1) (f.seconds i))) ≡ f.of_int n
