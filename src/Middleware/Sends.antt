-- ===== src/Middleware/Sends.antt =====
-- Recoverer around a handler that is a run of calls, on a writer that is no recorder.
use mathlib.Core.Path.{subst}
use webhttp.Prelude.{
  ℕ, Bool, true, false, ◌||◌, List, [], ◌∷◌, ◌++◌, Option, none, some, ◌≡◌, refl, sym, ap, ◌∙◌,
  arith, Bool-cases, inl, inr,
}
use webhttp.Prelude
use webhttp.Http
use webhttp.Http.{
  Request, Response, is_committed, Outcome, returned, panicked, Handler, content_length, fits,
  is_whole,
}
use webhttp.Json.{ErrorResponse, write_error}
use webhttp.Gzip.Calls.{Call, sets_status, writes, flushes, edits, direct, direct_calls}
use webhttp.Middleware.{
  Hook, wrote, enter, resume, leave, internal_error, internal_error_msg, recoverer, recover_panic,
}
use webhttp.Middleware.Recovery.{
  envelope, write_error-IsServerError, framing_leave, recover_panic-sent, recover_panic-default,
  recoverer-run, left_by,
}

-- whether a call sends something: all do but an edit of the header
abbrev pub sends : Call → Bool
sends (edits f) = false
sends _ = true

abbrev pub any_sends : List Call → Bool
any_sends [] = false
any_sends (c ∷ cs) = sends c || any_sends cs

abbrev strip : Response → Response
strip w = record w { recorder = none }

direct-strip : (c : Call) (w : Response) → strip (direct c w) ≡ direct c (strip w)
unfolding Http.write_header Http.write
direct-strip (sets_status code) w = ground arith
direct-strip (writes p) w = ground arith
direct-strip flushes w = ground arith
direct-strip (edits f) w = refl

direct_calls-strip :
    (cs : List Call) (w : Response) → strip (direct_calls cs w) ≡ direct_calls cs (strip w)
direct_calls-strip [] w = refl
direct_calls-strip (c ∷ cs) w =
    direct_calls-strip cs (direct c w) ∙ ap (direct_calls cs) (direct-strip c w)

direct-recorder :
    (c : Call) (w : Response) (b : Bool)
    → w.recorder ≡ some b
    → (direct c w).recorder ≡ some (b || sends c)
unfolding Http.write_header Http.write
direct-recorder (sets_status code) w b h = ground arith
direct-recorder (writes p) w b h = ground arith
direct-recorder flushes w b h = ground arith
direct-recorder (edits f) w b h = ground arith

or_assoc : (a b c : Bool) → (a || b) || c ≡ a || (b || c)
or_assoc a b c = ground arith

direct_calls-recorder :
    (cs : List Call) (w : Response) (b : Bool)
    → w.recorder ≡ some b
    → (direct_calls cs w).recorder ≡ some (b || any_sends cs)
direct_calls-recorder [] w b h = ground arith
direct_calls-recorder (c ∷ cs) w b h =
    direct_calls-recorder cs (direct c w) (b || sends c) (direct-recorder c w b h)
    ∙ ap some (or_assoc b (sends c) (any_sends cs))

-- a run of header edits leaves the rest
edits_only :
    (cs : List Call) (w : Response)
    → any_sends cs ≡ false
    → ((direct_calls cs w).status ≡ w.status) × ((direct_calls cs w).body ≡ w.body)
edits_only [] w h = (refl, refl)
edits_only (sets_status code ∷ cs) w h = absurd (cc h)
edits_only (writes p ∷ cs) w h = absurd (cc h)
edits_only (flushes ∷ cs) w h = absurd (cc h)
edits_only (edits f ∷ cs) w h = edits_only cs (record w { header = f w.header }) h

unsent : (w w' : Response) → w.status ≡ w'.status → is_committed w' ≡ false → is_committed w ≡ false
unsent w w' e h = rw (is_committed, e) h

enter-bare : (w : Response) → w.recorder ≡ none → enter w ≡ record w { recorder = some false }
enter-bare w h = ground arith

strip-enter : (w : Response) → w.recorder ≡ none → strip (enter w) ≡ w
strip-enter w h = ground arith

seen_after :
    (w inner : Response) (b : Bool)
    → w.recorder ≡ some false
    → inner.recorder ≡ some b
    → wrote (resume w inner) ≡ b
seen_after w inner b h h' = ground arith

wrote-enter :
    (w : Response) (cs : List Call)
    → w.recorder ≡ none
    → wrote (resume (enter w) (direct_calls cs (enter w))) ≡ any_sends cs
wrote-enter w cs bare =
    let flag : (enter w).recorder ≡ some false = ap (λ x. x.recorder) (enter-bare w bare) in
    let flag' = direct_calls-recorder cs (enter w) false flag in
    seen_after (enter w) (direct_calls cs (enter w)) (any_sends cs) flag flag'

leave-strip : (w inner : Response) → w.recorder ≡ none → leave w inner ≡ strip inner
leave-strip w inner h = ground arith

leave-enter :
    (w : Response) (cs : List Call)
    → w.recorder ≡ none
    → leave w (resume (enter w) (direct_calls cs (enter w))) ≡ direct_calls cs w
leave-enter w cs bare =
    leave-strip w (resume (enter w) (direct_calls cs (enter w))) bare
    ∙ direct_calls-strip cs (enter w)
    ∙ ap (direct_calls cs) (strip-enter w bare)

module _ (encode : ErrorResponse → Option Prelude.Bytes) where
  -- What the client has of a handler that makes these calls and panics.
  pub record IsSettled (r : Request) (w : Response) (cs : List Call) (res : Response × Outcome)
      : Type 0 where
    pub back : res.1 ≡ returned
    pub kept : any_sends cs ≡ true → res.0 ≡ direct_calls cs w
    pub status : any_sends cs ≡ false → is_committed w ≡ false → res.0.status ≡ some 500
    pub body :
        any_sends cs ≡ false → is_committed w ≡ false → res.0.body ≡ w.body ++ envelope encode r
    pub framing :
        any_sends cs ≡ false
        → is_committed w ≡ false
        → is_whole res.0
          ≡ fits (content_length (direct_calls cs w).header) (w.body ++ envelope encode r)

  abbrev script : List Call → ℕ → Handler
  script cs v r w = (direct_calls cs w, panicked v)

  settled :
      (hook : Option Hook) (r : Request) (w inner : Response) (cs : List Call) (v : ℕ)
      → wrote inner ≡ any_sends cs
      → leave w inner ≡ direct_calls cs w
      → IsSettled r w cs (left_by encode w (recover_panic encode hook none r (inner, panicked v)))
  settled hook r w inner cs v seen same = elim (Bool-cases (any_sends cs)) [
    | inl some_ ↦
        let e = recover_panic-sent encode hook none r inner v (seen ∙ some_) in
        subst (λ x. IsSettled r w cs (left_by encode w x)) (sym e)
          (record {
            back = refl;
            kept = λ h. same;
            status = λ h. absurd (cc (h, some_));
            body = λ h. absurd (cc (h, some_));
            framing = λ h. absurd (cc (h, some_));
          })
    | inr nothing ↦
        let e = recover_panic-default encode hook r inner v (seen ∙ nothing) in
        let (status, body) = edits_only cs w nothing in
        let header : inner.header ≡ (direct_calls cs w).header = ap (λ x. x.header) same in
        let before : inner.body ≡ w.body = ap (λ x. x.body) same ∙ body in
        let open_ =
          λ (h : is_committed w ≡ false). unsent inner w (ap (λ x. x.status) same ∙ status) h in
        let answer =
          λ (h : is_committed w ≡ false). write_error-IsServerError encode r inner (open_ h) in
        subst (λ x. IsSettled r w cs (left_by encode w x)) (sym e)
          (record {
            back = refl;
            kept = λ h. absurd (cc (h, nothing));
            status = λ _ h. (answer h).status;
            body = λ _ h. (answer h).body ∙ ap (λ b. b ++ envelope encode r) before;
            framing = λ _ h.
                framing_leave w (write_error encode r 500 internal_error internal_error_msg inner)
                ∙ (answer h).framing
                ∙ ap (λ x. fits (content_length x) (inner.body ++ envelope encode r)) header
                ∙ ap
                    (λ b. fits (content_length (direct_calls cs w).header) (b ++ envelope encode r))
                    before;
          })
  ]

  -- With the default responder, on a writer that is no recorder: a panic behind any run of calls becomes
  -- a return. Where one of the calls has sent something, the response is what the calls have made of
  -- it. Where none has, and nothing was sent before, the status is 500 and the body ends in the error
  -- envelope, which the client gets whole exactly if the header, as the calls have left it, declares no
  -- other length.
  pub recoverer-IsSettled :
      (hook : Option Hook) (r : Request) (w : Response) (cs : List Call) (v : ℕ)
      → w.recorder ≡ none
      → IsSettled r w cs (recoverer encode hook none (script cs v) r w)
  recoverer-IsSettled hook r w cs v bare =
      let run = recoverer-run encode hook none (script cs v) r w _ _ refl in
      subst (IsSettled r w cs) (sym run) (
        settled hook r w (resume (enter w) (direct_calls cs (enter w))) cs v (wrote-enter w cs bare)
          (leave-enter w cs bare))
