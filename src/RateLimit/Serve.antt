-- ===== src/RateLimit/Serve.antt =====
-- What a client gets from the limiter.
use webhttp.Prelude.{
  ℕ, true, false, [], ◌∷◌, Option, none, some, ◌≡◌, refl, Bool-cases, inl, inr, Bytes, codes, itoa,
  ◌∙◌, ◌++◌, ◌≤◌,
}
use webhttp.Float.{Float64}
use webhttp.Header.{values, set}
use webhttp.Header.Laws.{values-set}
use webhttp.Http.{Request, Response, Outcome, returned, ErrorResponder, Handler, is_committed}
use webhttp.Json.{ErrorResponse, write_error, error_envelope}
use webhttp.Json.Envelope.{json_headers-other, json_headers-type, encoded, write_json_status_sent}
use webhttp.RateLimit.Bucket.{IsDrawn, allow-IsDrawn, denied_hint}
use webhttp.RateLimit.{TokenBucket, allow, RateLimitConfig, limits, serve, responder_of}

module _ (f : Float64) (encode : ErrorResponse → Option Bytes) where
  -- A 429 with the hint in decimal, and the error envelope as its body.
  pub record IsDenied (c : RateLimitConfig) (hint : ℕ) (r : Request) (w w' : Response)
      : Type 0 where
    pub status : w'.status ≡ some 429
    pub retry_after : values (codes "Retry-After") w'.sent ≡ itoa hint ∷ []
    pub content_type : values (codes "Content-Type") w'.sent ≡ codes "application/json" ∷ []
    pub body : w'.body ≡ w.body ++ encoded (encode (error_envelope r c.code c.msg))

  -- Outcome by outcome: a request that the predicate leaves out reaches the handler and leaves the
  -- bucket as it is; one that finds a token reaches it and takes that token; one that finds none gets
  -- the 429 in place of it, and takes nothing.
  pub data IsServed (c : RateLimitConfig) (next : Handler) (b : TokenBucket f) (now : ℕ)
      (r : Request) (w : Response) (res : Response × Outcome) (b' : TokenBucket f) : Type 0 where
    passed : limits c.when r ≡ false → res ≡ next r w → b' ≡ b → IsServed c next b now r w res b'
    admitted :
        limits c.when r ≡ true
        → res ≡ next r w
        → IsDrawn f b now true b'
        → IsServed c next b now r w res b'
    denied :
        (hint : ℕ)
        → limits c.when r ≡ true
        → 1 ≤ hint
        → IsDenied c hint r w res.0
        → res.1 ≡ returned
        → IsDrawn f b now false b'
        → IsServed c next b now r w res b'

  with_hint : ℕ → Response → Response
  with_hint hint w = record w { header = set (codes "Retry-After") (itoa hint) w.header }

  write_error-IsDenied :
      (c : RateLimitConfig) (hint : ℕ) (r : Request) (w : Response)
      → is_committed w ≡ false
      → IsDenied c hint r w (write_error encode r 429 c.code c.msg (with_hint hint w))
  unfolding write_error with_hint
  write_error-IsDenied c hint r w open_ =
      let e = error_envelope r c.code c.msg in
      let (status, sent, body) =
        write_json_status_sent encode 429 e (with_hint hint w) open_ refl in
      record {
        status = status;
        retry_after = rw sent (
            json_headers-other (with_hint hint w) (codes "Retry-After") refl refl
            ∙ values-set (codes "Retry-After") (codes "Retry-After") (itoa hint) w.header);
        content_type = rw sent (json_headers-type (with_hint hint w));
        body = body;
      }

  responder_of-IsDenied :
      (fn : Option ErrorResponder) (c : RateLimitConfig) (hint : ℕ) (r : Request) (w : Response)
      → fn ≡ none
      → is_committed w ≡ false
      → let res = responder_of f encode fn 429 c.code c.msg r (with_hint hint w) in
        IsDenied c hint r w res.0 × (res.1 ≡ returned)
  responder_of-IsDenied none c hint r w e open_ = (write_error-IsDenied c hint r w open_, refl)
  responder_of-IsDenied (some fn) c hint r w e open_ = cc

  -- With the default responder, on a response that is not sent yet: a request outside the predicate
  -- passes and leaves the bucket alone. Any other draws on what the bucket holds by then: with a token
  -- or more it passes and takes one; with less it takes nothing, does not reach the handler, and gets a
  -- 429 with the error envelope and a Retry-After of a second at least.
  pub serve-IsServed :
      (c : RateLimitConfig) (next : Handler) (b : TokenBucket f) (now : ℕ) (r : Request)
      (w : Response)
      → c.responder ≡ none
      → is_committed w ≡ false
      → IsServed c next b now r w
          (serve f encode c next b now r w).0
          (serve f encode c next b now r w).1
  unfolding serve with_hint
  serve-IsServed c next b now r w default open_ = elim (Bool-cases (limits c.when r)) [
    | inr out ↦ rw out (passed out refl refl)
    | inl in_ ↦ elim (Bool-cases (allow f b now).allowed) [
      | inl ok ↦ rw (in_, ok) (admitted in_ refl (rw ok at (allow-IsDrawn f b now)))
      | inr no_ ↦
          let hint = (allow f b now).retry_after in
          let (refused, back) = responder_of-IsDenied c.responder c hint r w default open_ in
          rw (in_, no_)
            (denied hint in_ (denied_hint f b now no_) refused back
              (rw no_ at (allow-IsDrawn f b now)))
    ]
  ]
