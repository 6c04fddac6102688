-- ===== src/RateLimit/Tests.antt =====
-- Runs of the limiter, and its laws at concrete buckets and clock readings.
use webhttp.Prelude.{
  ℕ, ◌+◌, ◌-◌, ◌*◌, ◌/◌, ◌≤◌, ◌<◌, false, [], ◌∷◌, Option, none, some, leb, if◌then◌else◌, ◌==◌,
  ◌≡◌, refl, arith, Bytes, codes,
}
use native.Mathlib.Nat.{mul_comm}
use webhttp.Float.{Float64, IsFloat64, step}
use webhttp.Http.{Request, returned, Handler, fresh}
use webhttp.Json.{ErrorResponse}
use webhttp.RateLimit.{
  TokenBucket, allow, new_bucket, rate_limit_config, serve, session_create_options, second,
}
use webhttp.RateLimit.Bucket.{IsTuned}
use webhttp.RateLimit.Window.{admitted, admitted_window}
use webhttp.RateLimit.Serve.{IsServed, serve-IsServed}

-- Arithmetic in fixed point that has the laws: numbers that are not negative, in units of 1/step of a
-- nanosecond or of a token, which round down.
abbrev unit : ℕ
unit = step * second

abbrev fixed_div : ℕ → ℕ → ℕ
fixed_div a b = if b == 0 then 0 else a * unit / b

abbrev fixed : Float64
fixed = record {
  F = ℕ;
  of_int = λ n. n * unit;
  seconds = λ d. d * step;
  add = λ a b. a + b;
  sub = λ a b. a - b;
  mul = λ a b. a * b / unit;
  div = fixed_div;
  le = leb;
  ceil = λ a. (a + (unit - 1)) / unit;
}

quotient_bound : (c i : ℕ) → 0 < i → c / i * i ≤ c
quotient_bound c i h = grind arith

quotient_over : (c i : ℕ) → 0 < i → c ≤ (c / i + 1) * i
quotient_over c i h = grind arith

cancel : (a b k : ℕ) → 0 < k → a * k ≤ b * k → a ≤ b
cancel a b k pos h = grind arith

scale : (a b k : ℕ) → a ≤ b → k * a ≤ k * b
scale a b k h = grind arith

regroup_left : (a q i n : ℕ) → a * q * n * i ≡ a * (q * (i * n))
regroup_left a q i n = grind arith

regroup_right : (s i c : ℕ) → c * (s * i) ≡ s * c * i
regroup_right s i c = grind arith

rate_bound : (a q i n c s : ℕ) → q * (i * n) ≤ c → a ≤ s * i → 0 < i → a * q * n ≤ s * c
rate_bound a q i n c s low high pos = cancel (a * q * n) (s * c) i pos (
    omega (
      arith,
      regroup_left a q i n,
      regroup_right s i c,
      scale (q * (i * n)) c a low,
      scale a (s * i) c high,
      mul_comm a c,
    ))

nonzero : (i : ℕ) → 0 < i → (i * step == 0) ≡ false
nonzero i h = ground arith

fixed_rate :
    (d i : ℕ)
    → 0 < i
    → d * step * fixed_div (1 * unit) (i * step) / unit ≤ (d * step / i + 2) * second
fixed_rate d i pos =
    let s = d * step / i + 1 in
    let q = 1 * unit * unit / (i * step) in
    let bound =
      rate_bound (d * step) q i step (1 * unit * unit) s
        (quotient_bound (1 * unit * unit) (i * step) (omega arith)) (quotient_over (d * step) i pos)
        pos in
    rw (nonzero i pos) (omega (arith, bound))

zero_mul : (b : ℕ) → 0 * step * b ≡ 0
zero_mul b = grind arith

no_gain : (a b : ℕ) → a + 0 * step * b / unit ≡ a
no_gain a b = let z : 0 * step * b ≡ 0 = zero_mul b in omega (arith, z)

fixed-IsFloat64 : IsFloat64 fixed
fixed-IsFloat64 = record {
  grid = λ n. n * second;
  of_int-grid = λ n. omega arith;
  le_trans = λ a b c p q. ground arith;
  le_total = λ a b h. ground arith;
  grid_mono = λ m n h. ground arith;
  grid_reflects = λ m n s h. ground arith;
  add_le = λ a b m n p q s. ground arith;
  sub_le = λ a m n p le s. ground arith;
  rate_le = λ d i pos small. ground (arith, fixed_rate d i pos);
  sub_one = λ n s. omega arith;
  add_none = λ n i s pos. no_gain (n * unit) (fixed_div (1 * unit) (i * step));
}

-- drained at 0, refilled by a token in three seconds
abbrev drained : TokenBucket fixed
drained = record (new_bucket fixed 2 (3 * second)) { last = some 0 }

runs :
    (admitted fixed (new_bucket fixed 2 second) (0 ∷ 1 ∷ 2 ∷ (2 * second) ∷ []) ≡ 3)
    × ((allow fixed drained second).allowed ≡ false)
    × ((allow fixed drained second).retry_after ≡ 3)
unfolding admitted new_bucket allow
runs = (refl, refl, refl)

drained-IsTuned : IsTuned fixed drained 2 (3 * second)
unfolding new_bucket
drained-IsTuned = record { capacity = refl; rate = refl }

admitted_window_example :
    admitted fixed drained (second ∷ (4 * second) ∷ (9 * second) ∷ []) * (step * (3 * second))
    ≤ 2 * (step * (3 * second)) + (9 * second - second) * step + 2 * (2 * (3 * second))
admitted_window_example =
    admitted_window fixed fixed-IsFloat64 2 (3 * second) (omega arith) (omega arith) drained second
      ((4 * second) ∷ (9 * second) ∷ []) drained-IsTuned (omega arith, (omega arith, tt))

abbrev login : Request
login = record {
  method = codes "POST";
  path = codes "/session";
  pattern = [];
  host = codes "localhost";
  remote_addr = codes "127.0.0.1:9";
  header = [];
  request_id = codes "id";
}

abbrev accept_all : Handler
accept_all r w = (w, returned)

abbrev error_text : ErrorResponse → Option Bytes
error_text e = some e.error

login_config_default :
    (rate_limit_config (session_create_options (codes "/session"))).responder ≡ none
unfolding rate_limit_config
login_config_default = refl

serve-IsServed_example :
    IsServed fixed error_text
      (rate_limit_config (session_create_options (codes "/session")))
      accept_all
      drained
      second
      login
      fresh
      (serve fixed error_text
        (rate_limit_config (session_create_options (codes "/session")))
        accept_all
        drained
        second
        login
        fresh).0
      (serve fixed error_text
        (rate_limit_config (session_create_options (codes "/session")))
        accept_all
        drained
        second
        login
        fresh).1
serve-IsServed_example =
    serve-IsServed fixed error_text (rate_limit_config (session_create_options (codes "/session")))
      accept_all drained second login fresh login_config_default refl
