-- ===== src/Gzip/Panic.antt =====
-- What a client has of a handler that panics inside Gzip inside Recoverer.
use mathlib.Core.Path.{subst}
use webhttp.Prelude.{
  ℕ, true, false, ◌||◌, List, [], ◌∷◌, ◌++◌, Option, none, ◌≡◌, ◌≢◌, refl, sym, ap, ◌∙◌, Bytes,
  codes, some, arith, Bool-cases, inl, inr,
}
use webhttp.Header.{values}
use webhttp.Header.Laws.{values-del}
use webhttp.Http.{
  Request, Response, is_committed, Outcome, returned, panicked, content_length, fits, is_whole,
}
use webhttp.Json.{ErrorResponse, write_error}
use webhttp.Middleware.{
  Hook, internal_error, internal_error_msg, wrote, enter, resume, recoverer, recover_panic,
}
use webhttp.Middleware.Recovery.{
  content_length-eq, envelope, write_error-IsServerError, left_by, framing_leave,
  recover_panic-sent, recover_panic-default, recoverer-run,
}
use webhttp.Gzip.{GzipConfig}
use webhttp.Gzip.Calls.{Call, calls}
use webhttp.Gzip.Recorded.{is_recorded, unseen_open, calls-is_recorded}
use webhttp.Gzip.Writer.{Compressor, GzipWriter, buffering, abort, new_writer}
use webhttp.Gzip.Settled.{holds, plain, packs}
use webhttp.Gzip.Writing.{IsWriting, waits, settled}
use webhttp.Gzip.Body.{calls-IsWriting}
use webhttp.Gzip.Serve.{Scripted, skips, offers, gzip}

undeclared : content_length [] ≡ none
unfolding content_length values
undeclared = refl

wrote-resume : (w inner : Response) → wrote (resume (enter w) inner) ≡ wrote w || wrote inner
wrote-resume w inner = ground arith

module _ (media_type : Bytes → Option Bytes) (canonical_key : Bytes → Bytes) (z : Compressor) where
  -- Nothing of an aborted response changes but the header that has not been sent.
  abort_keeps :
      (g : GzipWriter media_type canonical_key z)
      → let w = (abort media_type canonical_key z g).rw in
        (w.status ≡ g.rw.status)
        × (w.sent ≡ g.rw.sent)
        × (w.interim ≡ g.rw.interim)
        × (w.body ≡ g.rw.body)
        × (w.recorder ≡ g.rw.recorder)
        × (g.state ≡ buffering → values (codes "Content-Length") w.header ≡ [])
        × (g.state ≢ buffering → w.header ≡ g.rw.header)
  unfolding abort
  abort_keeps g = (
    ground arith,
    ground arith,
    ground arith,
    ground arith,
    ground arith,
    λ e. rw e (values-del (codes "Content-Length") (codes "Content-Length") g.rw.header),
    λ n. ground arith,
  )

  enter-body : (w : Response) → w.body ≡ [] → (enter w).body ≡ []
  enter-body w h = ground arith

  enter-open : (w : Response) → is_committed w ≡ false → is_committed (enter w) ≡ false
  enter-open w h = ground arith

  enter-is_recorded : (w : Response) → is_committed w ≡ false → is_recorded (enter w) ≡ true
  enter-is_recorded w h = ground arith

  unsent_body :
      (g : GzipWriter media_type canonical_key z) (payload : Bytes)
      → IsWriting media_type canonical_key z g payload
      → is_committed g.rw ≡ false
      → g.rw.body ≡ []
  unsent_body g payload (waits h) open_ = h.body
  unsent_body g payload (settled (holds _ _ none_yet _ _)) open_ = none_yet
  unsent_body g payload (settled (plain _ _ done)) open_ = absurd (cc)
  unsent_body g payload (settled (packs h)) open_ = absurd (cc (h.done))

  -- What the client has behind Recoverer, `g` the state of the writer when the handler panicked.
  module _ (encode : ErrorResponse → Option Bytes) where
    pub data IsUnwound (r : Request) (before : Response) (g : GzipWriter media_type canonical_key z)
        (res : Response × Outcome) : Type 0 where
      clean :
          wrote before || wrote g.rw ≡ false
          → res.1 ≡ returned
          → res.0.status ≡ some 500
          → res.0.body ≡ envelope encode r
          → values (codes "Content-Type") res.0.sent ≡ codes "application/json" ∷ []
          → (g.state ≡ buffering → is_whole res.0 ≡ true)
          → (g.state ≢ buffering
              → is_whole res.0 ≡ fits (content_length g.rw.header) (envelope encode r))
          → IsUnwound r before g res
      cut :
          wrote before || wrote g.rw ≡ true
          → res.1 ≡ returned
          → res.0.status ≡ g.rw.status
          → res.0.sent ≡ g.rw.sent
          → res.0.body ≡ g.rw.body
          → IsUnwound r before g res

    unwound :
        (hook : Option Hook) (r : Request) (w : Response)
        (g : GzipWriter media_type canonical_key z) (payload : Bytes) (v : ℕ)
        → IsWriting media_type canonical_key z g payload
        → is_recorded g.rw ≡ true
        → IsUnwound r w g (
            left_by encode w (
              recover_panic encode hook none r
                (resume (enter w) (abort media_type canonical_key z g).rw, panicked v)))
    unfolding values
    unwound hook r w g payload v h recorded =
        let (status, sent, interim, body, seen, unframed, framed) = abort_keeps g in
        let inner = resume (enter w) (abort media_type canonical_key z g).rw in
        let same : wrote inner ≡ wrote w || wrote g.rw =
          wrote-resume w (abort media_type canonical_key z g).rw
          ∙ ap (λ o. wrote w || wrote (record g.rw { recorder = o })) seen in
        elim (Bool-cases (wrote w || wrote g.rw)) [
          | inl some_ ↦
              let e = recover_panic-sent encode hook none r inner v (same ∙ some_) in
              subst (λ x. IsUnwound r w g (left_by encode w x)) (sym e)
                (cut some_ refl status sent body)
          | inr nothing ↦
              let e = recover_panic-default encode hook r inner v (same ∙ nothing) in
              let open_ = unseen_open g.rw recorded (ground arith) in
              let open' : is_committed inner ≡ false = rw (is_committed, status) open_ in
              let a = write_error-IsServerError encode r inner open' in
              let alone : inner.body ≡ [] = body ∙ unsent_body g payload h open_ in
              let framing =
                framing_leave w (write_error encode r 500 internal_error internal_error_msg inner)
                ∙ a.framing
                ∙ ap (λ b. fits (content_length inner.header) (b ++ envelope encode r)) alone in
              subst (λ x. IsUnwound r w g (left_by encode w x)) (sym e)
                (clean nothing refl a.status (a.body ∙ ap (λ b. b ++ envelope encode r) alone)
                  a.content_type
                  (λ b.
                    framing
                    ∙ ap (λ n. fits n (envelope encode r))
                        (content_length-eq inner.header [] (unframed b) ∙ undeclared))
                  (λ nb.
                    framing ∙ ap (λ n. fits (content_length n) (envelope encode r)) (framed nb)))
        ]

    -- For a request that is not skipped and a response with nothing sent, whatever the panic hook does:
    -- a panic of the handler becomes a return. Where the recorder has seen nothing, interim statuses
    -- included, the status is 500 and the body the error envelope alone. The client gets that whole
    -- where a body was held back; where none was, exactly if the handler has left no Content-Length
    -- for another length. Where the recorder has seen something, what was sent stays as it is.
    pub gzip-IsUnwound :
        (hook : Option Hook) (c : GzipConfig) (next : Scripted) (r : Request) (w : Response)
        (cs : List Call) (v : ℕ)
        → next r ≡ (cs, panicked v)
        → skips c.skip r ≡ false
        → is_committed w ≡ false
        → w.body ≡ []
        → IsUnwound r w
            (calls media_type canonical_key z cs
              (new_writer media_type canonical_key z c (offers r) (enter w)))
            (recoverer encode hook none (gzip media_type canonical_key z c next) r w)
    unfolding gzip
    gzip-IsUnwound hook c next r w cs v run kept open_ none_yet =
        let g = new_writer media_type canonical_key z c (offers r) (enter w) in
        let start = waits (record {
          state = refl;
          nothing = refl;
          buf = refl;
          body = enter-body w none_yet;
          open_ = enter-open w open_;
        }) in
        let writing = calls-IsWriting media_type canonical_key z cs g [] start in
        let recorded =
          calls-is_recorded media_type canonical_key z cs g (enter-is_recorded w open_) in
        let panics : gzip media_type canonical_key z c next r (enter w) ≡ (
          (abort media_type canonical_key z (calls media_type canonical_key z cs g)).rw,
          panicked v,
        ) =
          rw (run, kept) refl in
        subst (IsUnwound r w (calls media_type canonical_key z cs g))
          (sym (
            recoverer-run encode hook none (gzip media_type canonical_key z c next) r w _ _ panics))
          (unwound hook r w _ _ v writing recorded)
