-- ===== src/RateLimit/Window.antt =====
-- The aggregate rate: how many calls a bucket admits in a window of time.
use webhttp.Prelude.{
  ℕ, suc, ◌+◌, ◌-◌, ◌*◌, ◌/◌, ◌≤◌, ◌<◌, true, List, [], ◌∷◌, some, ◌≡◌, sym, ap, ◌∙◌, arith,
  if◌then◌else◌, length, Bool-cases, inl, inr,
}
use mathlib.Core.Path.{subst}
use Prim.Native.Nat.{◌^◌}
use native.Mathlib.Decide.{dec_le}
use webhttp.Float.{Float64, IsFloat64, step}
use webhttp.RateLimit.{TokenBucket, allow, refill}
use webhttp.RateLimit.Bucket.{IsTuned, allow-IsDrawn, allow-IsTuned, refill_le, refill_gain}

abbrev pub Ascends : ℕ → List ℕ → Type 0
Ascends t [] = Unit
Ascends t (u ∷ ts) = (t ≤ u) × Ascends u ts

abbrev pub final : ℕ → List ℕ → ℕ
final t [] = t
final t (u ∷ ts) = final u ts

final-le : (t : ℕ) (ts : List ℕ) → Ascends t ts → t ≤ final t ts
final-le t [] h = omega arith
final-le t (u ∷ ts) (le, h) = omega (arith, final-le u ts h)

-- Steps of a token, and what they cost at the rate of a token in `i`.
quotient_le : (n i : ℕ) → 0 < i → n / i * i ≤ n
quotient_le n i h = grind arith

mul_mono : (m n k : ℕ) → m ≤ n → m * k ≤ n * k
mul_mono m n k h = grind arith

mul_add : (m n k : ℕ) → (m + n) * k ≡ m * k + n * k
mul_add m n k = grind arith

mul_sub : (m n k : ℕ) → n ≤ m → (m - n) * k + n * k ≡ m * k
mul_sub m n k h =
    let whole : (m - n) + n ≡ m = omega arith in sym (mul_add (m - n) n k) ∙ ap (λ x. x * k) whole

mul_assoc : (a b c : ℕ) → a * b * c ≡ a * (b * c)
mul_assoc a b c = grind arith

pays : (m g i d : ℕ) → g * i ≤ d → (m + (g + 2)) * i ≤ m * i + d + 2 * i
pays m g i d h = omega (arith, mul_add m (g + 2) i, mul_add g 2 i)

module _ (f : Float64) where
  -- how many of the calls at these clock readings are admitted
  unfoldable pub admitted : TokenBucket f → List ℕ → ℕ
  admitted b [] = 0
  admitted b (t ∷ ts) =
      let d = allow f b t in let rest = admitted d.bucket ts in if d.allowed then suc rest else rest

  module _ (law : IsFloat64 f) (burst interval : ℕ) (small : burst ≤ 2 ^ 30)
      (pos : 0 < interval) where
    open law use {grid, grid_reflects, sub_le, of_int-grid, le_trans}

    -- the pool in whole steps, and what they cost at the rate of a token in `interval`
    record Holds (b : TokenBucket f) (t cost : ℕ) : Type 0 where
      steps : ℕ
      pool : f.le (refill f b t) (grid steps) ≡ true
      within : steps ≤ burst * step
      paid : steps * interval ≤ cost

    burst-Holds :
        (b : TokenBucket f) (t : ℕ)
        → IsTuned f b burst interval
        → Holds b t (burst * step * interval)
    burst-Holds b t tuned = record {
      steps = burst * step;
      pool = refill_le f law b t burst interval tuned;
      within = omega arith;
      paid = omega arith;
    }

    later-Holds :
        (b : TokenBucket f) (l t m : ℕ)
        → IsTuned f b burst interval
        → b.last ≡ some l
        → l ≤ t
        → f.le b.tokens (grid m) ≡ true
        → Holds b t (m * interval + (t - l) * step + 2 * interval)
    later-Holds b l t m tuned last le pool =
        let g = (t - l) * step / interval in
        let cost = pays m g interval ((t - l) * step) (quotient_le ((t - l) * step) interval pos) in
        elim (dec_le (m + (g + 2)) (burst * step)) [
          | yes fits ↦ record {
            steps = m + (g + 2);
            pool = refill_gain f law b l t burst interval m tuned last le pos pool (omega arith);
            within = fits;
            paid = cost;
          }
          | no over ↦ record {
            steps = burst * step;
            pool = refill_le f law b t burst interval tuned;
            within = omega arith;
            paid =
                omega (arith, mul_mono (burst * step) (m + (g + 2)) interval (omega arith), cost);
          }
        ]

    -- A call at `t` with the calls behind it, which the pool that it leaves pays for.
    admitted_first :
        (b : TokenBucket f) (t : ℕ) (ts : List ℕ) (cost later : ℕ)
        → Holds b t cost
        → ((m : ℕ)
            → f.le (allow f b t).bucket.tokens (grid m) ≡ true
            → admitted (allow f b t).bucket ts * (step * interval) ≤ m * interval + later)
        → admitted b (t ∷ ts) * (step * interval) ≤ cost + later
    unfolding admitted
    admitted_first b t ts cost later h rest =
        let d = allow-IsDrawn f b t in
        let one = of_int-grid 1 in
        let n = admitted (allow f b t).bucket ts in
        elim (Bool-cases (allow f b t).allowed) [
          | inl in_time ↦
              let enough : f.le (grid (1 * step)) (refill f b t) ≡ true =
                cc (d.enough, in_time, ap (λ x. f.le x (refill f b t)) one) in
              let fits : 1 * step ≤ h.steps =
                grid_reflects (1 * step) h.steps (omega arith) (le_trans _ _ _ enough h.pool) in
              let left : f.le (allow f b t).bucket.tokens (grid (h.steps - 1 * step)) ≡ true =
                subst (λ x. f.le x (grid (h.steps - 1 * step)) ≡ true)
                  (sym (d.drawn in_time ∙ ap (f.sub (refill f b t)) one))
                  (sub_le (refill f b t) h.steps (1 * step) h.pool fits (omega arith)) in
              rw in_time (
                omega (
                  arith,
                  rest (h.steps - 1 * step) left,
                  mul_sub h.steps (1 * step) interval fits,
                  mul_add 1 n (step * interval),
                  h.paid,
                ))
          | inr too_soon ↦
              let left : f.le (allow f b t).bucket.tokens (grid h.steps) ≡ true =
                subst (λ x. f.le x (grid h.steps) ≡ true) (sym (d.kept too_soon)) h.pool in
              rw too_soon (omega (arith, rest h.steps left, h.paid))
        ]

    -- what the time of the calls refills, with two steps for each of them
    abbrev refilled : ℕ → List ℕ → ℕ
    refilled t ts = (final t ts - t) * step + 2 * (length ts * interval)

    admitted-le :
        (b : TokenBucket f) (l m : ℕ) (ts : List ℕ)
        → IsTuned f b burst interval
        → b.last ≡ some l
        → Ascends l ts
        → f.le b.tokens (grid m) ≡ true
        → admitted b ts * (step * interval) ≤ m * interval + refilled l ts
    unfolding admitted
    admitted-le b l m [] tuned last h pool = omega arith
    admitted-le b l m (t ∷ ts) tuned last (le, h) pool =
        let later = λ (k : ℕ) (p : f.le (allow f b t).bucket.tokens (grid k) ≡ true).
          admitted-le (allow f b t).bucket t k ts (allow-IsTuned f b t burst interval tuned)
            (allow-IsDrawn f b t).anchored h p in
        let first_ =
          admitted_first b t ts _ (refilled t ts) (later-Holds b l t m tuned last le pool) later in
        omega (arith, first_, final-le t ts h, mul_add 1 (length ts) interval)

    -- For a burst of at most 2 ^ 30 and arithmetic that rounds as float64 does: from any state of a
    -- bucket with this tuning, whatever the pool holds, the calls admitted at clock readings that do not
    -- go back cost, at one token each, at most the burst and what the time between the first and the
    -- last reading refills, and a rounding error of 2 ^ -19 of a token for each call but the first.
    pub admitted_window :
        (b : TokenBucket f) (t : ℕ) (ts : List ℕ)
        → IsTuned f b burst interval
        → Ascends t ts
        → admitted b (t ∷ ts) * (step * interval)
          ≤ burst * (step * interval) + (final t ts - t) * step + 2 * (length ts * interval)
    admitted_window b t ts tuned h =
        let later = λ (k : ℕ) (p : f.le (allow f b t).bucket.tokens (grid k) ≡ true).
          admitted-le (allow f b t).bucket t k ts (allow-IsTuned f b t burst interval tuned)
            (allow-IsDrawn f b t).anchored h p in
        let first_ = admitted_first b t ts _ (refilled t ts) (burst-Holds b t tuned) later in
        omega (arith, first_, mul_assoc burst step interval)
