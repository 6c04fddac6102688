-- ===== src/Gzip/Negotiated.antt =====
-- Each call on the writer, and its end, as to the header that goes out.
use webhttp.Prelude.{
  ℕ, Bool, true, false, List, [], ◌∷◌, Option, ◌≡◌, ◌≢◌, refl, sym, ap, Bytes, ltb, length, ◌+◌,
  arith, Bool-cases, Option-cases, inl, inr,
}
use mathlib.Core.Path.{subst}
use webhttp.Http.{Response, is_committed, is_interim}
use webhttp.Gzip.{GzipConfig, candidate}
use webhttp.Gzip.Writer.{
  pending, identity, compressed, Compressor, GzipWriter, decide_status, write_header,
  implicit_status, commit_compressed, write_in, write, flush_in, flush, close_zw, finish_in, finish,
  new_writer,
}
use webhttp.Gzip.Sending.{send_interim, write_committed}
use webhttp.Gzip.Calls.{Call, sets_status, writes, flushes, edits, call, calls}
use webhttp.Gzip.Body.{commit_identity_state}
use webhttp.Gzip.Marked.{IsMarked}
use webhttp.Gzip.Vary.{
  NamesEncoding, Promises, undecided, held_back, as_is, packed, decide_status-Promises,
  names_written, commit_identity-Promises, write_zw-Promises, flush_zw-Promises,
  commit_compressed_state,
}

module _ (media_type : Bytes → Option Bytes) (canonical_key : Bytes → Bytes) (z : Compressor)
    (cfg : GzipConfig) where
  decided :
      (code : ℕ) (g : GzipWriter media_type canonical_key z)
      → g.cfg ≡ cfg
      → is_committed g.rw ≡ false
      → is_interim code ≡ false
      → let g' =
          decide_status media_type canonical_key z code
            (candidate media_type g.cfg code g.rw.header)
            g in
        Promises media_type canonical_key z cfg g' × (g'.state ≢ pending)
  unfolding decide_status
  decided code g same open_ final = (
    subst
        (λ c. Promises media_type canonical_key z cfg (
          decide_status media_type canonical_key z code (candidate media_type c code g.rw.header)
            g))
        (sym same) (decide_status-Promises media_type canonical_key z cfg code g open_ final),
    ground arith,
  )

  write_header-Promises :
      (code : ℕ) (g : GzipWriter media_type canonical_key z)
      → Promises media_type canonical_key z cfg g
      → Promises media_type canonical_key z cfg (write_header media_type canonical_key z code g)
  unfolding write_header
  write_header-Promises code g (held_back e v open_ final) = rw e (held_back refl v open_ final)
  write_header-Promises code g (as_is e done names) = rw e (as_is refl done names)
  write_header-Promises code g (packed e done marked) = rw e (packed refl done marked)
  write_header-Promises code g (undecided e same open_) = elim (Bool-cases (is_interim code)) [
    | inl interim ↦
        let (body, still) = send_interim code g.rw open_ interim in
        rw (e, interim) (undecided refl same still)
    | inr final ↦ rw (e, final) (decided code g same open_ final).0
  ]

  -- An operation on the body finds the final status decided.
  implicit_status-Promises :
      (g : GzipWriter media_type canonical_key z)
      → Promises media_type canonical_key z cfg g
      → let g' = implicit_status media_type canonical_key z g in
        Promises media_type canonical_key z cfg g' × (g'.state ≢ pending)
  unfolding implicit_status write_header
  implicit_status-Promises g (held_back e v open_ final) = rw e (held_back refl v open_ final, cc)
  implicit_status-Promises g (as_is e done names) = rw e (as_is refl done names, cc)
  implicit_status-Promises g (packed e done marked) = rw e (packed refl done marked, cc)
  implicit_status-Promises g (undecided e same open_) = rw e (decided 200 g same open_ refl)

  write_in-Promises :
      (p : Bytes) (g : GzipWriter media_type canonical_key z)
      → Promises media_type canonical_key z cfg g × (g.state ≢ pending)
      → Promises media_type canonical_key z cfg (write_in media_type canonical_key z g.state p g)
  unfolding write_in
  write_in-Promises p g (undecided e same open_, ready) = absurd (ready e)
  write_in-Promises p g (as_is e done names, ready) =
      let (body, sent, still) = write_committed p g.rw done in
      rw (ap (λ x. write_in media_type canonical_key z x p g) e)
        (as_is e still (names_written media_type canonical_key z cfg p g.rw done names))
  write_in-Promises p g (packed e done marked, ready) =
      rw (ap (λ x. write_in media_type canonical_key z x p g) e)
        (write_zw-Promises media_type canonical_key z cfg p g e done marked)
  write_in-Promises p g (held_back e v open_ final, ready) =
      let at_buffering = ap (λ x. write_in media_type canonical_key z x p g) e in
      elim (Bool-cases (ltb (length g.buf + length p) g.cfg.min_bytes)) [
        | inl few ↦ rw (at_buffering, few) (held_back e v open_ final)
        | inr many ↦
            let (e', done, marked) =
              commit_compressed_state media_type canonical_key z cfg g v open_ final in
            rw (at_buffering, many)
              (write_zw-Promises media_type canonical_key z cfg p
                (commit_compressed media_type canonical_key z g) e' done marked)
      ]

  flush_in-Promises :
      (g : GzipWriter media_type canonical_key z)
      → Promises media_type canonical_key z cfg g
      → Promises media_type canonical_key z cfg (flush_in media_type canonical_key z g.state g)
  unfolding flush_in
  flush_in-Promises g (undecided e same open_) =
      rw (ap (λ x. flush_in media_type canonical_key z x g) e) (undecided e same open_)
  flush_in-Promises g (as_is e done names) =
      rw (ap (λ x. flush_in media_type canonical_key z x g) e) (as_is e done names)
  flush_in-Promises g (packed e done marked) =
      rw (ap (λ x. flush_in media_type canonical_key z x g) e)
        (flush_zw-Promises media_type canonical_key z cfg g e done marked)
  flush_in-Promises g (held_back e v open_ final) =
      rw (ap (λ x. flush_in media_type canonical_key z x g) e)
        (commit_identity-Promises media_type canonical_key z cfg g v open_ final)

  call-Promises :
      (c : Call) (g : GzipWriter media_type canonical_key z)
      → Promises media_type canonical_key z cfg g
      → Promises media_type canonical_key z cfg (call media_type canonical_key z c g)
  unfolding write flush
  call-Promises (sets_status code) g h = write_header-Promises code g h
  call-Promises (writes p) g h = write_in-Promises p _ (implicit_status-Promises g h)
  call-Promises flushes g h = flush_in-Promises _ (implicit_status-Promises g h).0
  call-Promises (edits f) g (undecided e same open_) = undecided e same open_
  call-Promises (edits f) g (held_back e v open_ final) = held_back e v open_ final
  call-Promises (edits f) g (as_is e done names) = as_is e done names
  call-Promises (edits f) g (packed e done marked) = packed e done marked

  calls-Promises :
      (cs : List Call) (g : GzipWriter media_type canonical_key z)
      → Promises media_type canonical_key z cfg g
      → Promises media_type canonical_key z cfg (calls media_type canonical_key z cs g)
  calls-Promises [] g h = h
  calls-Promises (c ∷ cs) g h =
      calls-Promises cs (call media_type canonical_key z c g) (call-Promises c g h)

  -- what the header that went out has, by whether the response was compressed
  pub data IsNegotiated (g : GzipWriter media_type canonical_key z) : Type 0 where
    sent_marked :
        g.state ≡ compressed → is_committed g.rw ≡ true → IsMarked g.rw.sent → IsNegotiated g
    sent_plain :
        g.state ≡ identity
        → is_committed g.rw ≡ true
        → NamesEncoding media_type canonical_key z cfg g.rw
        → IsNegotiated g

  settled_Promises :
      (g : GzipWriter media_type canonical_key z)
      → g.state ≡ identity
      → Promises media_type canonical_key z cfg g
      → IsNegotiated g
  settled_Promises g at_ (undecided e _ _) = absurd (cc)
  settled_Promises g at_ (held_back e _ _ _) = absurd (cc)
  settled_Promises g at_ (as_is e done names) = sent_plain e done names
  settled_Promises g at_ (packed e _ _) = absurd (cc)

  finish_in-IsNegotiated :
      (g : GzipWriter media_type canonical_key z)
      → Promises media_type canonical_key z cfg g × (g.state ≢ pending)
      → IsNegotiated (finish_in media_type canonical_key z g.state g)
  unfolding finish_in close_zw
  finish_in-IsNegotiated g (undecided e same open_, ready) = absurd (ready e)
  finish_in-IsNegotiated g (as_is e done names, ready) =
      rw (ap (λ x. finish_in media_type canonical_key z x g) e) (sent_plain e done names)
  finish_in-IsNegotiated g (packed e done marked, ready) =
      let at_packed = ap (λ x. finish_in media_type canonical_key z x g) e in
      elim (Option-cases g.zw) [
        | inl idle ↦ rw (at_packed, idle) (sent_marked e done marked)
        | inr (zw, busy) ↦
            let (body, sent, still) = write_committed (z.close_z zw) g.rw done in
            rw (at_packed, busy) (sent_marked e still (rw sent marked))
      ]
  finish_in-IsNegotiated g (held_back e v open_ final, ready) =
      rw (ap (λ x. finish_in media_type canonical_key z x g) e) (
        settled_Promises _ (commit_identity_state media_type canonical_key z g)
          (commit_identity-Promises media_type canonical_key z cfg g v open_ final))

  -- Whatever calls a handler makes on a response with nothing sent, edits of the header included: once
  -- it has returned, a compressed response has gone out with "gzip" as its one content coding, without
  -- a length, ranges and a strong entity-tag, and with Accept-Encoding in Vary; one that went out as
  -- written has Accept-Encoding in Vary if its status and header make it a candidate.
  pub finish-IsNegotiated :
      (accepts : Bool) (w : Response) (cs : List Call)
      → is_committed w ≡ false
      → let g =
          calls media_type canonical_key z cs
            (new_writer media_type canonical_key z cfg accepts w) in
        IsNegotiated (finish media_type canonical_key z g)
  unfolding finish new_writer
  finish-IsNegotiated accepts w cs open_ =
      finish_in-IsNegotiated _
        (implicit_status-Promises _ (calls-Promises cs _ (undecided refl refl open_)))
