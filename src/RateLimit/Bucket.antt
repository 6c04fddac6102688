-- ===== src/RateLimit/Bucket.antt =====
-- What one call does to the bucket.
use webhttp.Prelude.{
  ℕ, ◌+◌, ◌-◌, ◌*◌, ◌/◌, ◌≤◌, ◌<◌, Bool, true, false, some, ◌≡◌, refl, ◌∙◌, arith, Bool-cases, inl,
  inr,
}
use mathlib.Core.Path.{subst}
use Prim.Native.Nat.{◌^◌}
use webhttp.Float.{Float64, IsFloat64, step}
use webhttp.RateLimit.{TokenBucket, elapsed, refill, allow_locked, retry_after_seconds, allow}

elapsed-eq : (l now : ℕ) → l ≤ now → now - l ≡ elapsed l now
elapsed-eq l now h = ground arith

module _ (f : Float64) where
  -- A bucket as RateLimiter sets it up: it holds `burst` tokens and gains one in `interval`.
  pub record IsTuned (b : TokenBucket f) (burst interval : ℕ) : Type 0 where
    pub capacity : b.burst ≡ f.of_int burst
    pub rate : b.refill_per_sec ≡ f.div (f.of_int 1) (f.seconds interval)

  -- Every call leaves the tuning alone and anchors the clock at its reading. One that is admitted takes
  -- a token from what the bucket then holds, which is one at least; one that is denied takes none.
  pub record IsDrawn (b : TokenBucket f) (now : ℕ) (allowed : Bool) (b' : TokenBucket f)
      : Type 0 where
    pub same_burst : b'.burst ≡ b.burst
    pub same_rate : b'.refill_per_sec ≡ b.refill_per_sec
    pub anchored : b'.last ≡ some now
    pub enough : allowed ≡ f.le (f.of_int 1) (refill f b now)
    pub drawn : allowed ≡ true → b'.tokens ≡ f.sub (refill f b now) (f.of_int 1)
    pub kept : allowed ≡ false → b'.tokens ≡ refill f b now

  pub allow-IsDrawn :
      (b : TokenBucket f) (now : ℕ) → IsDrawn b now (allow f b now).allowed (allow f b now).bucket
  unfolding allow allow_locked
  allow-IsDrawn b now = elim (Bool-cases (f.le (f.of_int 1) (refill f b now))) [
    | inl enough ↦ rw enough (record {
      same_burst = refl;
      same_rate = refl;
      anchored = refl;
      enough = rw enough refl;
      drawn = λ h. refl;
      kept = λ h. absurd (cc h);
    })
    | inr few ↦ rw few (record {
      same_burst = refl;
      same_rate = refl;
      anchored = refl;
      enough = rw few refl;
      drawn = λ h. absurd (cc h);
      kept = λ h. refl;
    })
  ]

  -- A client that is told to wait waits for a second at least.
  pub denied_hint :
      (b : TokenBucket f) (now : ℕ)
      → (allow f b now).allowed ≡ false
      → 1 ≤ (allow f b now).retry_after
  unfolding allow allow_locked retry_after_seconds
  denied_hint b now h = ground arith

  pub allow-IsTuned :
      (b : TokenBucket f) (now burst interval : ℕ)
      → IsTuned b burst interval
      → IsTuned (allow f b now).bucket burst interval
  allow-IsTuned b now burst interval t =
      let d = allow-IsDrawn b now in
      record { capacity = cc (d.same_burst, t.capacity); rate = cc (d.same_rate, t.rate) }

  module _ (law : IsFloat64 f) where
    open law use {
      grid, of_int-grid, le_trans, le_total, grid_mono, grid_reflects, add_le, sub_le, rate_le,
    }

    burst_self : (n : ℕ) → f.le (f.of_int n) (f.of_int n) ≡ true
    burst_self n = rw (of_int-grid n) (grid_mono (n * step) (n * step) (omega arith))

    -- Whatever the pool held before, it holds the burst at most.
    pub refill_le :
        (b : TokenBucket f) (now burst interval : ℕ)
        → IsTuned b burst interval
        → f.le (refill f b now) (grid (burst * step)) ≡ true
    unfolding refill
    refill_le b now burst interval t =
        let self : f.le b.burst b.burst ≡ true = rw t.capacity (burst_self burst) in
        let below : f.le (refill f b now) b.burst ≡ true = ground (arith, self) in
        let e : b.burst ≡ grid (burst * step) = t.capacity ∙ of_int-grid burst in
        subst (λ x. f.le (refill f b now) x ≡ true) e below

    -- With the pool at most `m` steps at the last call, what the time since then has added is counted.
    pub refill_gain :
        (b : TokenBucket f) (l now burst interval m : ℕ)
        → IsTuned b burst interval
        → b.last ≡ some l
        → l ≤ now
        → 0 < interval
        → f.le b.tokens (grid m) ≡ true
        → m + ((now - l) * step / interval + 2) ≤ 2 ^ 50
        → f.le (refill f b now) (grid (m + ((now - l) * step / interval + 2))) ≡ true
    unfolding refill
    refill_gain b l now burst interval m t e le pos pool small =
        let g = (now - l) * step / interval + 2 in
        let pace : f.le (f.mul (f.seconds (elapsed l now)) b.refill_per_sec) (grid g) ≡ true =
          rw t.rate (
            subst
              (λ d.
                f.le (f.mul (f.seconds d) (f.div (f.of_int 1) (f.seconds interval))) (grid g)
                ≡ true)
              (elapsed-eq l now le) (rate_le (now - l) interval pos (omega arith))) in
        let sum = f.add b.tokens (f.mul (f.seconds (elapsed l now)) b.refill_per_sec) in
        let added : f.le sum (grid (m + g)) ≡ true = add_le _ _ m g pool pace (omega arith) in
        rw e (elim (Bool-cases (f.le sum b.burst)) [
          | inl within ↦ rw within added
          | inr over ↦ rw over (le_trans b.burst sum (grid (m + g)) (le_total _ _ over) added)
        ])
