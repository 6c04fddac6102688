-- ===== src/Middleware/Recovery.antt =====
-- What a client and the server see of a handler's panic.
use mathlib.Core.Path.{subst}
use webhttp.Prelude.{
  ℕ, true, false, [], ◌∷◌, ◌++◌, Option, none, some, ◌≡◌, ◌≢◌, refl, Bytes, codes, arith,
  Bool-cases, inl, inr, ap, sym, ◌∙◌, append-nil,
}
use webhttp.Header.{Header, values}
use webhttp.Http.{
  Request, Response, is_committed, Outcome, returned, aborted, panicked, Handler, ErrorResponder,
  content_length, parse_first, fits, is_whole, write, write_header,
}
use webhttp.Json.{ErrorResponse, error_envelope, write_error, json_headers, write_json_status}
use webhttp.Json.Envelope.{encoded, json_headers-type, json_headers-other, write_json_status_sent}
use webhttp.Middleware.{
  Hook, wrote, enter, resume, leave, internal_error, internal_error_msg, recoverer, recover_panic,
  fire_hook, default_responder, write_recover_response, after_responder,
}

-- The length declared does not change with the other fields.
pub content_length-eq :
    (h h' : Header)
    → values (codes "Content-Length") h ≡ values (codes "Content-Length") h'
    → content_length h ≡ content_length h'
unfolding content_length
content_length-eq h h' e = ap parse_first e

fire_hook-returned : (hook : Option Hook) (v : ℕ) → fire_hook hook v ≡ returned
unfolding fire_hook
fire_hook-returned none v = refl
fire_hook-returned (some hook) v = ground arith

pub framing_leave : (before w : Response) → is_whole (leave before w) ≡ is_whole w
unfolding is_whole
framing_leave before w = refl

module _ (encode : ErrorResponse → Option Bytes) where
  abbrev pub envelope : Request → Bytes
  envelope r = encoded (encode (error_envelope r internal_error internal_error_msg))

  -- A 500 with the JSON envelope, behind what the body held. The client gets it whole exactly if the
  -- handler has left no Content-Length for another length.
  pub record IsServerError (r : Request) (w w' : Response) : Type 0 where
    pub status : w'.status ≡ some 500
    pub content_type : values (codes "Content-Type") w'.sent ≡ codes "application/json" ∷ []
    pub body : w'.body ≡ w.body ++ envelope r
    pub framing : is_whole w' ≡ fits (content_length w.header) (w.body ++ envelope r)

  pub write_error-IsServerError :
      (r : Request) (w : Response)
      → is_committed w ≡ false
      → IsServerError r w (write_error encode r 500 internal_error internal_error_msg w)
  unfolding write_error is_whole
  write_error-IsServerError r w open_ =
      let e = error_envelope r internal_error internal_error_msg in
      let (status, sent, body) = write_json_status_sent encode 500 e w open_ refl in
      let other = json_headers-other w (codes "Content-Length") refl refl in
      record {
        status = status;
        content_type = rw sent (json_headers-type w);
        body = body;
        framing =
            ap
              (λ h.
                fits (content_length h)
                  (write_error encode r 500 internal_error internal_error_msg w).body)
              sent
            ∙ ap (λ b. fits (content_length (json_headers w).header) b) body
            ∙ ap (λ n. fits n (w.body ++ envelope r))
                (content_length-eq (json_headers w).header w.header other);
      }

  -- the envelope behind a response whose status was sent before the recorder was set up
  pub record IsAppended (r : Request) (w w' : Response) : Type 0 where
    pub status : w'.status ≡ w.status
    pub sent : w'.sent ≡ w.sent
    pub body : w'.body ≡ w.body ++ envelope r

  write_error-IsAppended :
      (r : Request) (w : Response)
      → is_committed w ≡ true
      → IsAppended r w (write_error encode r 500 internal_error internal_error_msg w)
  unfolding write_error write_json_status write write_header json_headers
  write_error-IsAppended r w sent = record {
    status = ground arith;
    sent = ground arith;
    body = ground (arith, append-nil w.body);
  }

  -- `inner` is what the wrapped handler left, with what the recorder knows.
  pub data IsRecovered (r : Request) (w inner : Response) (end : Outcome) (res : Response × Outcome)
      : Type 0 where
    -- it returned
    untouched : end ≡ returned → res ≡ (leave w inner, returned) → IsRecovered r w inner end res
    -- http.ErrAbortHandler goes on to the server
    aborting : end ≡ aborted → res ≡ (leave w inner, aborted) → IsRecovered r w inner end res
    -- it panicked with part of a response sent, which stays as it is
    started :
        (v : ℕ)
        → end ≡ panicked v
        → wrote inner ≡ true
        → res ≡ (leave w inner, returned)
        → IsRecovered r w inner end res
    -- it panicked with nothing sent
    answered :
        (v : ℕ)
        → end ≡ panicked v
        → wrote inner ≡ false
        → is_committed inner ≡ false
        → IsServerError r inner res.0
        → res.1 ≡ returned
        → IsRecovered r w inner end res
    -- it panicked and the recorder, which is as new as this call, knows nothing of what was sent before
    appended :
        (v : ℕ)
        → end ≡ panicked v
        → wrote inner ≡ false
        → is_committed inner ≡ true
        → IsAppended r inner res.0
        → res.1 ≡ returned
        → IsRecovered r w inner end res

  pub recover_panic-sent :
      (hook : Option Hook) (fn : Option ErrorResponder) (r : Request) (w : Response) (v : ℕ)
      → wrote w ≡ true
      → recover_panic encode hook fn r (w, panicked v) ≡ (w, returned)
  unfolding recover_panic
  recover_panic-sent hook fn r w v sent = ground (arith, fire_hook-returned hook v)

  recover_panic-open :
      (hook : Option Hook) (fn : Option ErrorResponder) (r : Request) (w : Response) (v : ℕ)
      → wrote w ≡ false
      → recover_panic encode hook fn r (w, panicked v) ≡ write_recover_response encode fn r w
  unfolding recover_panic
  recover_panic-open hook fn r w v open_ = ground (arith, fire_hook-returned hook v)

  default_response :
      (r : Request) (w : Response)
      → write_recover_response encode none r w
        ≡ (write_error encode r 500 internal_error internal_error_msg w, returned)
  unfolding write_recover_response after_responder
  default_response r w = refl

  pub recover_panic-default :
      (hook : Option Hook) (r : Request) (w : Response) (v : ℕ)
      → wrote w ≡ false
      → recover_panic encode hook none r (w, panicked v)
        ≡ (write_error encode r 500 internal_error internal_error_msg w, returned)
  recover_panic-default hook r w v open_ =
      recover_panic-open hook none r w v open_ ∙ default_response r w

  abbrev pub left_by : Response → Response × Outcome → Response × Outcome
  left_by w (out, end) = (leave w out, end)

  pub recoverer-run :
      (hook : Option Hook) (fn : Option ErrorResponder) (next : Handler) (r : Request)
      (w inner : Response) (end : Outcome)
      → next r (enter w) ≡ (inner, end)
      → recoverer encode hook fn next r w
        ≡ left_by w (recover_panic encode hook fn r (resume (enter w) inner, end))
  unfolding recoverer
  recoverer-run hook fn next r w inner end e =
      ap
        (λ (x : Response × Outcome).
          left_by w (recover_panic encode hook fn r (resume (enter w) x.0, x.1)))
        e

  recover_panic-IsRecovered :
      (hook : Option Hook) (r : Request) (w inner : Response) (end : Outcome)
      → IsRecovered r w inner end (left_by w (recover_panic encode hook none r (inner, end)))
  unfolding recover_panic
  recover_panic-IsRecovered hook r w inner returned = untouched refl refl
  recover_panic-IsRecovered hook r w inner aborted = aborting refl refl
  recover_panic-IsRecovered hook r w inner (panicked v) = elim (Bool-cases (wrote inner)) [
    | inl sent ↦ started v refl sent (ap (left_by w) (recover_panic-sent hook none r inner v sent))
    | inr open_ ↦
        let out = write_error encode r 500 internal_error internal_error_msg inner in
        let e = recover_panic-default hook r inner v open_ in
        elim (Bool-cases (is_committed inner)) [
          | inl before ↦
              let a = write_error-IsAppended r inner before in
              subst (λ x. IsRecovered r w inner (panicked v) (left_by w x)) (sym e)
                (appended v refl open_ before
                  (record { status = a.status; sent = a.sent; body = a.body }) refl)
          | inr nothing ↦
              let a = write_error-IsServerError r inner nothing in
              subst (λ x. IsRecovered r w inner (panicked v) (left_by w x)) (sym e)
                (answered v refl open_ nothing
                  (record {
                    status = a.status;
                    content_type = a.content_type;
                    body = a.body;
                    framing = framing_leave w out ∙ a.framing;
                  })
                  refl)
        ]
  ]

  -- With the default responder, and whatever the panic hook does: a handler that returns or aborts is
  -- left alone. A panic becomes a return: with the response as it stands if the recorder has seen some
  -- of it; if nothing was sent, with a 500 and the error envelope, which the client gets whole exactly
  -- if the handler has left no Content-Length for another length; and with the envelope behind what
  -- was sent before the recorder was set up, if that is all that was sent.
  pub recoverer-IsRecovered :
      (hook : Option Hook) (next : Handler) (r : Request) (w : Response)
      → let (inner, end) = next r (enter w) in
        IsRecovered r w (resume (enter w) inner) end (recoverer encode hook none next r w)
  unfolding recoverer
  recoverer-IsRecovered hook next r w =
      let (inner, end) = next r (enter w) in
      recover_panic-IsRecovered hook r w (resume (enter w) inner) end

  after_responder-returned :
      (r : Request) (x : Response × Outcome) → (after_responder encode r x).1 ≡ returned
  unfolding after_responder
  after_responder-returned r (w, returned) = refl
  after_responder-returned r (w, aborted) = refl
  after_responder-returned r (w, panicked v) = refl

  -- how a call ends that `recoverPanic` is deferred in
  abbrev pub end_of : Outcome → Outcome
  end_of aborted = aborted
  end_of _ = returned

  ends-ne-panicked : (end : Outcome) (v : ℕ) {o : Outcome} → o ≡ end_of end → o ≢ panicked v
  ends-ne-panicked returned v e = cc
  ends-ne-panicked aborted v e = cc
  ends-ne-panicked (panicked u) v e = cc

  ends_aborted : (end : Outcome) {o : Outcome} → o ≡ end_of end → o ≡ aborted → end ≡ aborted
  ends_aborted returned e h = cc
  ends_aborted aborted e h = refl
  ends_aborted (panicked u) e h = cc

  recover_panic-end :
      (hook : Option Hook) (fn : Option ErrorResponder) (r : Request) (w : Response) (end : Outcome)
      → (recover_panic encode hook fn r (w, end)).1 ≡ end_of end
  unfolding recover_panic write_recover_response
  recover_panic-end hook fn r w returned = refl
  recover_panic-end hook fn r w aborted = refl
  recover_panic-end hook fn r w (panicked v) = elim (Bool-cases (wrote w)) [
    | inl sent ↦ ap (λ x. x.1) (recover_panic-sent hook fn r w v sent)
    | inr open_ ↦
        ap (λ x. x.1) (recover_panic-open hook fn r w v open_)
        ∙ after_responder-returned r
            (default_responder encode fn 500 internal_error internal_error_msg r w)
  ]

  -- Whatever the hook and the responder do, panics of their own included: no panic but
  -- http.ErrAbortHandler leaves the middleware, and that only if the handler panicked with it.
  pub recoverer-ne-panicked :
      (hook : Option Hook) (fn : Option ErrorResponder) (next : Handler) (r : Request)
      (w : Response) (v : ℕ)
      → ((recoverer encode hook fn next r w).1 ≢ panicked v)
        × ((recoverer encode hook fn next r w).1 ≡ aborted → (next r (enter w)).1 ≡ aborted)
  unfolding recoverer
  recoverer-ne-panicked hook fn next r w v =
      let (inner, end) = next r (enter w) in
      let e = recover_panic-end hook fn r (resume (enter w) inner) end in
      (ends-ne-panicked end v e, ends_aborted end e)
