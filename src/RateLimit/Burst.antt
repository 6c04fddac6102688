-- ===== src/RateLimit/Burst.antt =====
-- The burst: what a bucket admits at one moment.
use Prim.Native.Nat.{min, ◌^◌}
use webhttp.Prelude.{
  ℕ, zero, suc, ◌+◌, ◌*◌, ◌≤◌, ◌<◌, true, false, List, [], ◌∷◌, some, ◌≡◌, refl, sym, ap, ◌∙◌,
  arith, Bool-cases, inl, inr,
}
use webhttp.Float.{Float64, IsFloat64, step}
use webhttp.RateLimit.{TokenBucket, elapsed, refill, allow, new_bucket}
use webhttp.RateLimit.Bucket.{IsTuned, allow-IsDrawn, allow-IsTuned}
use webhttp.RateLimit.Window.{admitted}

abbrev repeat : ℕ → ℕ → List ℕ
repeat zero t = []
repeat (suc n) t = t ∷ repeat n t

elapsed-same : (t : ℕ) → elapsed t t ≡ 0
elapsed-same t = ground arith

module _ (f : Float64) (law : IsFloat64 f) (burst interval : ℕ) (small : burst ≤ 2 ^ 30)
    (pos : 0 < interval) where
  open law use {grid, of_int-grid, grid_mono, grid_reflects, sub_one, add_none}

  of_int_mono : (m n : ℕ) → m ≤ n → f.le (f.of_int m) (f.of_int n) ≡ true
  of_int_mono m n h =
      ap (λ x. f.le x (f.of_int n)) (of_int-grid m)
      ∙ ap (f.le (grid (m * step))) (of_int-grid n)
      ∙ grid_mono (m * step) (n * step) (omega arith)

  none_left : f.le (f.of_int 1) (f.of_int 0) ≡ false
  none_left = elim (Bool-cases (f.le (f.of_int 1) (f.of_int 0))) [
    | inr no_ ↦ no_
    | inl yes_ ↦
        let on_grid : f.le (grid (1 * step)) (grid (0 * step)) ≡ true =
          ap (λ x. f.le x (grid (0 * step))) (sym (of_int-grid 1))
          ∙ ap (f.le (f.of_int 1)) (sym (of_int-grid 0))
          ∙ yes_ in
        absurd (omega (arith, grid_reflects (1 * step) (0 * step) (omega arith) on_grid))
  ]

  -- A second call at the same moment finds what the first one left.
  refill_again :
      (b : TokenBucket f) (t m : ℕ)
      → IsTuned f b burst interval
      → b.last ≡ some t
      → b.tokens ≡ f.of_int m
      → m ≤ burst
      → refill f b t ≡ f.of_int m
  unfolding refill
  refill_again b t m tuned last pool fits =
      let pace = f.div (f.of_int 1) (f.seconds interval) in
      let sum : f.add b.tokens (f.mul (f.seconds (elapsed t t)) b.refill_per_sec) ≡ f.of_int m =
        ap (λ x. f.add x (f.mul (f.seconds (elapsed t t)) b.refill_per_sec)) pool
        ∙ ap (λ x. f.add (f.of_int m) (f.mul (f.seconds (elapsed t t)) x)) tuned.rate
        ∙ ap (λ d. f.add (f.of_int m) (f.mul (f.seconds d) pace)) (elapsed-same t)
        ∙ add_none m interval (omega arith) pos in
      let within : f.le (f.of_int m) b.burst ≡ true =
        ap (f.le (f.of_int m)) tuned.capacity ∙ of_int_mono m burst fits in
      rw (last, sum, within) refl

  admitted_at_once :
      (b : TokenBucket f) (t m n : ℕ)
      → IsTuned f b burst interval
      → refill f b t ≡ f.of_int m
      → m ≤ burst
      → admitted f b (repeat n t) ≡ min n m
  unfolding admitted
  admitted_at_once b t m zero tuned pool fits = omega arith
  admitted_at_once b t zero (suc n) tuned pool fits =
      let d = allow-IsDrawn f b t in
      let too_soon : (allow f b t).allowed ≡ false =
        d.enough ∙ ap (f.le (f.of_int 1)) pool ∙ none_left in
      let tuned' = allow-IsTuned f b t burst interval tuned in
      let again =
        refill_again (allow f b t).bucket t 0 tuned' d.anchored (d.kept too_soon ∙ pool) fits in
      rw too_soon (omega (arith, admitted_at_once (allow f b t).bucket t 0 n tuned' again fits))
  admitted_at_once b t (suc m) (suc n) tuned pool fits =
      let d = allow-IsDrawn f b t in
      let in_time : (allow f b t).allowed ≡ true =
        d.enough ∙ ap (f.le (f.of_int 1)) pool ∙ of_int_mono 1 (suc m) (omega arith) in
      let tuned' = allow-IsTuned f b t burst interval tuned in
      let one_more : suc m ≡ m + 1 = omega arith in
      let left : (allow f b t).bucket.tokens ≡ f.of_int m =
        d.drawn in_time
        ∙ ap (λ x. f.sub x (f.of_int 1)) (pool ∙ ap f.of_int one_more)
        ∙ sub_one m (omega arith) in
      let again = refill_again (allow f b t).bucket t m tuned' d.anchored left (omega arith) in
      rw in_time
        (omega (arith, admitted_at_once (allow f b t).bucket t m n tuned' again (omega arith)))

  new_bucket-IsTuned : IsTuned f (new_bucket f burst interval) burst interval
  unfolding new_bucket
  new_bucket-IsTuned = record { capacity = refl; rate = refl }

  new_bucket-full : (t : ℕ) → refill f (new_bucket f burst interval) t ≡ f.of_int burst
  unfolding new_bucket refill
  new_bucket-full t = refl

  -- For a burst of at most 2 ^ 30 and arithmetic that rounds as float64 does: of any number of calls at
  -- one moment, a new bucket admits as many as its burst, or all if they are fewer.
  new_bucket-admits :
      (t n : ℕ) → admitted f (new_bucket f burst interval) (repeat n t) ≡ min n burst
  new_bucket-admits t n =
      admitted_at_once (new_bucket f burst interval) t burst n new_bucket-IsTuned
        (new_bucket-full t) (omega arith)
