-- ===== src/RateLimit.antt =====
-- ratelimit.go: the token bucket and its middleware. Time is in nanoseconds; the pool is a float64, of
-- which Float has the interface.
pub mod Bucket
pub mod Window
pub mod Burst
pub mod Serve
mod Tests
use webhttp.Prelude.{
  ℕ, ◌-◌, ◌*◌, Bool, true, false, ◌&&◌, ◌||◌, not, List, [], ◌∷◌, Option, none, some, ◌==◌, ltb,
  if◌then◌else◌, Bytes, codes, is_nil, eq_bytes, itoa,
}
use webhttp.Float.{Float64}
use webhttp.Header.{set}
use webhttp.Http.{Request, Response, Outcome, returned, Handler, ErrorResponder}
use webhttp.Json.{ErrorResponse, write_error}

abbrev pub second : ℕ
second = 1_000_000_000

-- the time between two readings of the clock; an earlier reading counts as none
abbrev pub elapsed : ℕ → ℕ → ℕ
elapsed last now = let last' = if ltb now last then now else last in now - last'

module _ (f : Float64) where
  open f use {F, of_int, seconds, add, sub, mul, div, le, ceil}

  pub record TokenBucket : Type 0 where
    -- `none` is the zero time
    pub last : Option ℕ
    pub tokens : F
    pub burst : F
    pub refill_per_sec : F

  -- the pool once the time since the last call has been added
  unfoldable pub refill : TokenBucket → ℕ → F
  refill b now = elim b.last [
    | none ↦ b.burst
    | some last ↦
        let tokens = add b.tokens (mul (seconds (elapsed last now)) b.refill_per_sec) in
        if not (le tokens b.burst) then b.burst else tokens
  ]

  unfoldable pub allow_locked : TokenBucket → ℕ → Bool × TokenBucket
  unfolding refill
  allow_locked b now =
      let tokens = refill b now in
      let b' : TokenBucket = record b { tokens = tokens; last = some now } in
      if le (of_int 1) tokens
      then (true, record b' { tokens = sub tokens (of_int 1) })
      else (false, b')

  unfoldable pub retry_after_seconds : TokenBucket → ℕ
  retry_after_seconds b =
      let deficit = sub (of_int 1) b.tokens in
      if le deficit (of_int 0)
      then 1
      else let secs = ceil (div deficit b.refill_per_sec) in if ltb secs 1 then 1 else secs

  pub record Decision : Type 0 where
    pub allowed : Bool
    pub retry_after : ℕ
    pub bucket : TokenBucket

  -- the whole call is made under the mutex
  unfoldable pub allow : TokenBucket → ℕ → Decision
  unfolding allow_locked retry_after_seconds
  allow b now =
      let (ok, b') = allow_locked b now in
      if ok
      then record { allowed = true; retry_after = 0; bucket = b' }
      else record { allowed = false; retry_after = retry_after_seconds b'; bucket = b' }

  unfoldable pub new_bucket : ℕ → ℕ → TokenBucket
  new_bucket burst interval = record {
    last = none;
    tokens = of_int 0;
    burst = of_int burst;
    refill_per_sec = div (of_int 1) (seconds interval);
  }

pub data RateLimitOption : Type 0 where
  with_rate_limit_error : Bytes → Bytes → RateLimitOption
  with_rate_limit_responder : Option ErrorResponder → RateLimitOption
  with_rate_limit_when : Option (Request → Bool) → RateLimitOption

pub record RateLimitConfig : Type 0 where
  pub when : Option (Request → Bool)
  pub responder : Option ErrorResponder
  pub code : Bytes
  pub msg : Bytes

-- a nil predicate or responder is ignored
abbrev keep_old {ℓ} : {A : Type ℓ} → Option A → Option A → Option A
keep_old none old = old
keep_old (some a) old = some a

apply_option : RateLimitOption → RateLimitConfig → RateLimitConfig
apply_option (with_rate_limit_error code msg) c = record c { code = code; msg = msg }
apply_option (with_rate_limit_responder fn) c = record c { responder = keep_old fn c.responder }
apply_option (with_rate_limit_when pred) c = record c { when = keep_old pred c.when }

-- the loop over the options, nil ones skipped
apply_options : List (Option RateLimitOption) → RateLimitConfig → RateLimitConfig
apply_options [] c = c
apply_options (none ∷ opts) c = apply_options opts c
apply_options (some o ∷ opts) c = apply_options opts (apply_option o c)

unfoldable pub rate_limit_config : List (Option RateLimitOption) → RateLimitConfig
unfolding apply_options apply_option
rate_limit_config opts = apply_options opts (record {
  when = none;
  responder = none;
  code = codes "rate_limited";
  msg = codes "rate limit exceeded";
})

abbrev limits : Option (Request → Bool) → Request → Bool
limits none r = true
limits (some pred) r = pred r

module _ (f : Float64) (encode : ErrorResponse → Option Bytes) where
  -- `WriteError` as the default responder
  abbrev responder_of : Option ErrorResponder → ErrorResponder
  responder_of none = λ status code msg r w. (write_error encode r status code msg w, returned)
  responder_of (some fn) = fn

  -- One request at the limiter, at the clock reading `now`: what the client gets, and the bucket.
  unfoldable pub serve :
      RateLimitConfig
      → Handler
      → TokenBucket f
      → ℕ
      → Request
      → Response
      → (Response × Outcome) × TokenBucket f
  serve c next b now r w =
      if not (limits c.when r)
      then (next r w, b)
      else let d = allow f b now in
        if d.allowed
        then (next r w, d.bucket)
        else let w' = record w {
          header = set (codes "Retry-After") (itoa d.retry_after) w.header;
        } in
          (responder_of c.responder 429 c.code c.msg r w', d.bucket)

  -- A burst or an interval of 0 (or below) leaves the handler as it is.
  unfoldable pub rate_limiter :
      ℕ
      → ℕ
      → List (Option RateLimitOption)
      → Handler
      → TokenBucket f
      → ℕ
      → Request
      → Response
      → (Response × Outcome) × TokenBucket f
  rate_limiter burst interval opts next b now r w =
      if burst == 0 || interval == 0
      then (next r w, b)
      else serve (rate_limit_config opts) next b now r w

abbrev pub session_create_options : Bytes → List (Option RateLimitOption)
session_create_options path =
    some
      (with_rate_limit_when (some (λ r. eq_bytes r.method (codes "POST") && eq_bytes r.path path)))
    ∷ (some (with_rate_limit_error (codes "rate_limited") (codes "session creation rate exceeded"))
        ∷ [])

abbrev pub failed_auth_options : Option (Request → Bool) → Bytes → List (Option RateLimitOption)
failed_auth_options pred msg =
    some (with_rate_limit_when pred)
    ∷ (some (
          with_rate_limit_error (codes "too_many_auth_failures")
            (if is_nil msg then codes "too many failed authentication attempts" else msg))
        ∷ [])

abbrev pub session_create_burst : ℕ
session_create_burst = 6

abbrev pub session_create_interval : ℕ
session_create_interval = second

abbrev pub failed_auth_burst : ℕ
failed_auth_burst = 10

abbrev pub failed_auth_interval : ℕ
failed_auth_interval = 6 * second
