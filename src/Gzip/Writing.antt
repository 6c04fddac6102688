-- ===== src/Gzip/Writing.antt =====
-- The calls on the writer keep what it holds in each state.
use webhttp.Prelude.{
  ℕ, ◌+◌, Bool, false, ◌||◌, not, ◌++◌, Option, ◌≡◌, refl, sym, ap, ◌∙◌, ltb, if◌then◌else◌, Bytes,
  length, Bool-cases, inl, inr,
}
use webhttp.Http.{is_interim}
use webhttp.Gzip.{candidate, compresses_status, add_vary_accept_encoding}
use webhttp.Gzip.Writer.{
  Compressor, GzipWriter, decide_status, write_header, implicit_status, write_in, flush_in,
}
use webhttp.Gzip.Sending.{write_committed, send_final, send_interim}
use webhttp.Gzip.Settled.{
  Settled, holds, plain, packs, IsPending, commit_identity-Settled, commit_compressed-IsPacked,
  write_zw-IsPacked, flush_zw-IsPacked,
}

module _ (media_type : Bytes → Option Bytes) (canonical_key : Bytes → Bytes) (z : Compressor) where
  decide_status-Settled :
      (code : ℕ) (b : Bool) (g : GzipWriter media_type canonical_key z) (payload : Bytes)
      → IsPending media_type canonical_key z g payload
      → is_interim code ≡ false
      → Settled media_type canonical_key z
          (decide_status media_type canonical_key z code b g)
          payload
  unfolding decide_status
  decide_status-Settled code b g payload h final =
      let head = if b then add_vary_accept_encoding g.rw.header else g.rw.header in
      let (body, sent, done) = send_final code (record g.rw { header = head }) h.open_ final in
      elim (Bool-cases (not b || not g.accepts || not (compresses_status code))) [
        | inl at_once ↦ rw at_once (plain refl (body ∙ h.body ∙ sym h.nothing) done)
        | inr later ↦ rw later (holds refl (h.buf ∙ sym h.nothing) h.body h.open_ final)
      ]

  write_header_stays :
      (code : ℕ) (g : GzipWriter media_type canonical_key z) (payload : Bytes)
      → Settled media_type canonical_key z g payload
      → write_header media_type canonical_key z code g ≡ g
  unfolding write_header
  write_header_stays code g payload (holds e _ _ _ _) = rw e refl
  write_header_stays code g payload (plain e _ _) = rw e refl
  write_header_stays code g payload (packs h) = rw h.state refl

  implicit_status_stays :
      (g : GzipWriter media_type canonical_key z) (payload : Bytes)
      → Settled media_type canonical_key z g payload
      → implicit_status media_type canonical_key z g ≡ g
  unfolding implicit_status
  implicit_status_stays g payload (holds e _ _ _ _) = rw e refl
  implicit_status_stays g payload (plain e _ _) = rw e refl
  implicit_status_stays g payload (packs h) = rw h.state refl

  pub data IsWriting (g : GzipWriter media_type canonical_key z) (payload : Bytes) : Type 0 where
    waits : IsPending media_type canonical_key z g payload → IsWriting g payload
    settled : Settled media_type canonical_key z g payload → IsWriting g payload

  pub implicit_status-Settled :
      (g : GzipWriter media_type canonical_key z) (payload : Bytes)
      → IsWriting g payload
      → Settled media_type canonical_key z (implicit_status media_type canonical_key z g) payload
  unfolding implicit_status write_header
  implicit_status-Settled g payload (waits h) =
      rw h.state
        (decide_status-Settled 200 (candidate media_type g.cfg 200 g.rw.header) g payload h refl)
  implicit_status-Settled g payload (settled h) = rw (implicit_status_stays g payload h) h

  pub write_header-IsWriting :
      (code : ℕ) (g : GzipWriter media_type canonical_key z) (payload : Bytes)
      → IsWriting g payload
      → IsWriting (write_header media_type canonical_key z code g) payload
  unfolding write_header
  write_header-IsWriting code g payload (settled h) =
      rw (write_header_stays code g payload h) (settled h)
  write_header-IsWriting code g payload (waits h) = elim (Bool-cases (is_interim code)) [
    | inl interim ↦
        let (body, open_) = send_interim code g.rw h.open_ interim in
        rw (h.state, interim)
          (waits (record {
            state = refl;
            nothing = h.nothing;
            buf = h.buf;
            body = body ∙ h.body;
            open_ = open_;
          }))
    | inr final ↦
        rw (h.state, final)
          (settled (
            decide_status-Settled code (candidate media_type g.cfg code g.rw.header) g payload h
              final))
  ]

  pub write_in-Settled :
      (p : Bytes) (g : GzipWriter media_type canonical_key z) (payload : Bytes)
      → Settled media_type canonical_key z g payload
      → Settled media_type canonical_key z
          (write_in media_type canonical_key z g.state p g)
          (payload ++ p)
  unfolding write_in
  write_in-Settled p g payload (packs h) =
      rw (ap (λ x. write_in media_type canonical_key z x p g) h.state)
        (packs (write_zw-IsPacked media_type canonical_key z p g payload h))
  write_in-Settled p g payload (plain e body done) =
      let (body', sent', done') = write_committed p g.rw done in
      rw (ap (λ x. write_in media_type canonical_key z x p g) e)
        (plain e (body' ∙ ap (λ b. b ++ p) body) done')
  write_in-Settled p g payload (holds e buf none_yet open_ final) =
      let at_buffering = ap (λ x. write_in media_type canonical_key z x p g) e in
      elim (Bool-cases (ltb (length g.buf + length p) g.cfg.min_bytes)) [
        | inl few ↦ rw (at_buffering, few) (holds e (ap (λ b. b ++ p) buf) none_yet open_ final)
        | inr many ↦
            rw (at_buffering, many)
              (packs (
                write_zw-IsPacked media_type canonical_key z p _ payload (
                  commit_compressed-IsPacked media_type canonical_key z g payload buf none_yet open_
                    final)))
      ]

  pub flush_in-Settled :
      (g : GzipWriter media_type canonical_key z) (payload : Bytes)
      → Settled media_type canonical_key z g payload
      → Settled media_type canonical_key z (flush_in media_type canonical_key z g.state g) payload
  unfolding flush_in
  flush_in-Settled g payload (packs h) =
      rw (ap (λ x. flush_in media_type canonical_key z x g) h.state)
        (packs (flush_zw-IsPacked media_type canonical_key z g payload h))
  flush_in-Settled g payload (plain e body done) =
      rw (ap (λ x. flush_in media_type canonical_key z x g) e) (plain e body done)
  flush_in-Settled g payload (holds e buf none_yet open_ final) =
      rw (ap (λ x. flush_in media_type canonical_key z x g) e)
        (commit_identity-Settled media_type canonical_key z g payload buf none_yet open_ final)
