-- ===== src/Gzip/Settled.antt =====
-- What the writer holds in each state, and what its sends leave.
use webhttp.Prelude.{
  Bool, true, false, [], ◌∷◌, ◌++◌, Option, some, ◌≡◌, refl, sym, ap, ◌∙◌, if◌then◌else◌, Bytes,
  codes, is_nil, Bool-cases, inl, inr,
}
use webhttp.Header.{values}
use webhttp.Http
use webhttp.Http.{Response, is_committed, is_interim}
use webhttp.Gzip.Writer.{
  pending, buffering, identity, compressed, Compressor, mark_compressed, GzipWriter, send_held,
  write_zw, commit_compressed, commit_identity, flush_zw, restore_header,
}
use webhttp.Gzip.Sending.{mark_compressed-coding, write_committed, send_final, is_nil-eq, coding}

module _ (media_type : Bytes → Option Bytes) (canonical_key : Bytes → Bytes) (z : Compressor) where
  open z use {Zw, reset, write_z, flush_z, close_z}

  -- A compressor that was fed `payload` since its reset, in any pieces, has passed `out` on.
  pub data Feeds : Zw → Bytes → Bytes → Type 0 where
    started : Feeds reset [] []
    wrote :
        {zw : Zw} {out payload : Bytes} (p : Bytes)
        → Feeds zw out payload
        → Feeds (write_z p zw).0 (out ++ (write_z p zw).1) (payload ++ p)
    flushed :
        {zw : Zw} {out payload : Bytes}
        → Feeds zw out payload
        → Feeds (flush_z zw).0 (out ++ (flush_z zw).1) payload

  -- the writer behind its compressor
  pub record IsPacked (g : GzipWriter media_type canonical_key z) (payload : Bytes) : Type 0 where
    pub at_zw : Zw
    pub state : g.state ≡ compressed
    pub has_zw : g.zw ≡ some at_zw
    pub feeds : Feeds at_zw g.rw.body payload
    pub done : is_committed g.rw ≡ true
    pub gzipped : coding g.rw ≡ codes "gzip" ∷ []

  -- The writer once the final status is known, with `payload` written by the handler so far.
  pub data Settled (g : GzipWriter media_type canonical_key z) (payload : Bytes) : Type 0 where
    holds :
        g.state ≡ buffering
        → g.buf ≡ payload
        → g.rw.body ≡ []
        → is_committed g.rw ≡ false
        → is_interim g.status ≡ false
        → Settled g payload
    plain : g.state ≡ identity → g.rw.body ≡ payload → is_committed g.rw ≡ true → Settled g payload
    packs : IsPacked g payload → Settled g payload

  pub record IsPending (g : GzipWriter media_type canonical_key z) (payload : Bytes) : Type 0 where
    pub state : g.state ≡ pending
    pub nothing : payload ≡ []
    pub buf : g.buf ≡ []
    pub body : g.rw.body ≡ []
    pub open_ : is_committed g.rw ≡ false

  send_held-holds :
      (c : Bool) (g : GzipWriter media_type canonical_key z)
      → is_committed g.rw ≡ false
      → is_interim g.status ≡ false
      → let g' = send_held media_type canonical_key z c g in
        (g'.rw.body ≡ g.rw.body)
        × (is_committed g'.rw ≡ true)
        × ((c ≡ true) → coding g'.rw ≡ codes "gzip" ∷ [])
  unfolding send_held
  send_held-holds c g open_ final =
      let h = (restore_header media_type canonical_key z g.rw.header g.held).1 in
      let w0 = record g.rw { header = if c then mark_compressed h else h } in
      let (body, sent, done) = send_final g.status w0 open_ final in
      (
        body,
        done,
        λ e. ap (values (codes "Content-Encoding")) sent ∙ rw e (mark_compressed-coding h),
      )

  pub commit_identity-Settled :
      (g : GzipWriter media_type canonical_key z) (payload : Bytes)
      → g.buf ≡ payload
      → g.rw.body ≡ []
      → is_committed g.rw ≡ false
      → is_interim g.status ≡ false
      → Settled (commit_identity media_type canonical_key z g) payload
  unfolding commit_identity send_held
  commit_identity-Settled g payload buf none_yet open_ final =
      let g1 = send_held media_type canonical_key z false (record g { state = identity }) in
      let (body, done, _) = send_held-holds false (record g { state = identity }) open_ final in
      let (body', sent', done') = write_committed g.buf g1.rw done in
      elim (Bool-cases (is_nil g.buf)) [
        | inl empty ↦
            rw empty (plain refl (body ∙ none_yet ∙ sym (is_nil-eq g.buf empty) ∙ buf) done)
        | inr some_ ↦
            rw some_ (plain refl (body' ∙ ap (λ b. b ++ g.buf) (body ∙ none_yet) ∙ buf) done')
      ]

  pub commit_compressed-IsPacked :
      (g : GzipWriter media_type canonical_key z) (payload : Bytes)
      → g.buf ≡ payload
      → g.rw.body ≡ []
      → is_committed g.rw ≡ false
      → is_interim g.status ≡ false
      → IsPacked (commit_compressed media_type canonical_key z g) payload
  unfolding commit_compressed write_zw send_held
  commit_compressed-IsPacked g payload buf none_yet open_ final =
      let g1 = send_held media_type canonical_key z true (record g { state = compressed }) in
      let (body, done, marked) =
        send_held-holds true (record g { state = compressed }) open_ final in
      let out = (write_z g.buf reset).1 in
      let (body', sent', done') = write_committed out g1.rw done in
      let all_out : (Http.write out g1.rw).body ≡ [] ++ out =
        body' ∙ ap (λ b. b ++ out) (body ∙ none_yet) in
      record {
        at_zw = (write_z g.buf reset).0;
        state = refl;
        has_zw = refl;
        feeds = rw (all_out, sym buf) (wrote g.buf started);
        done = done';
        gzipped = ap (values (codes "Content-Encoding")) sent' ∙ marked refl;
      }

  pub write_zw-IsPacked :
      (p : Bytes) (g : GzipWriter media_type canonical_key z) (payload : Bytes)
      → IsPacked g payload
      → IsPacked (write_zw media_type canonical_key z p g) (payload ++ p)
  unfolding write_zw
  write_zw-IsPacked p g payload h =
      let out = (write_z p h.at_zw).1 in
      let (body, sent, done) = write_committed out g.rw h.done in
      rw h.has_zw (record {
        at_zw = (write_z p h.at_zw).0;
        state = h.state;
        has_zw = refl;
        feeds = rw body (wrote p h.feeds);
        done = done;
        gzipped = ap (values (codes "Content-Encoding")) sent ∙ h.gzipped;
      })

  pub flush_zw-IsPacked :
      (g : GzipWriter media_type canonical_key z) (payload : Bytes)
      → IsPacked g payload
      → IsPacked (flush_zw media_type canonical_key z g) payload
  unfolding flush_zw
  flush_zw-IsPacked g payload h =
      let out = (flush_z h.at_zw).1 in
      let (body, sent, done) = write_committed out g.rw h.done in
      rw h.has_zw (record {
        at_zw = (flush_z h.at_zw).0;
        state = h.state;
        has_zw = refl;
        feeds = rw body (flushed h.feeds);
        done = done;
        gzipped = ap (values (codes "Content-Encoding")) sent ∙ h.gzipped;
      })
