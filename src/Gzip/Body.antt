-- ===== src/Gzip/Body.antt =====
-- The body that a client reads is what the handler wrote, sent as written or compressed.
use webhttp.Prelude.{
  Bool, true, false, List, [], ◌∷◌, ◌++◌, Option, some, ◌≡◌, refl, sym, ap, ◌∙◌, Bytes, codes,
  is_nil, append-nil, append_assoc, Bool-cases, inl, inr,
}
use webhttp.Header.{Header, values}
use webhttp.Http.{Response, is_committed}
use webhttp.Gzip.{GzipConfig}
use webhttp.Gzip.Writer.{
  identity, Compressor, GzipWriter, send_held, commit_identity, write, flush, close_zw, finish_in,
  finish, new_writer,
}
use webhttp.Gzip.Calls.{Call, sets_status, writes, flushes, edits, wrote_by, written, call, calls}
use webhttp.Gzip.Sending.{write_committed, coding}
use webhttp.Gzip.Settled.{Feeds, Settled, holds, plain, packs, IsPacked, commit_identity-Settled}
use webhttp.Gzip.Writing.{
  IsWriting, waits, settled, write_in-Settled, flush_in-Settled, implicit_status-Settled,
  write_header-IsWriting,
}

module _ (media_type : Bytes → Option Bytes) (canonical_key : Bytes → Bytes) (z : Compressor) where
  open z use {Zw, reset, write_z, flush_z, close_z}

  -- What reaches the client: the payload itself, or marked as gzip and decoding to it.
  pub data Delivers (decode : Bytes → Option Bytes) (w : Response) (payload : Bytes) : Type 0 where
    as_written : is_committed w ≡ true → w.body ≡ payload → Delivers decode w payload
    gzipped :
        is_committed w ≡ true
        → coding w ≡ codes "gzip" ∷ []
        → decode w.body ≡ some payload
        → Delivers decode w payload

  -- What the decoder makes of a stream that was closed.
  abbrev pub Decodes : (Bytes → Option Bytes) → Type 0
  Decodes decode =
      (zw : Zw) (out payload : Bytes)
      → Feeds media_type canonical_key z zw out payload
      → decode (out ++ close_z zw) ≡ some payload

  close_zw-Delivers :
      (decode : Bytes → Option Bytes) (g : GzipWriter media_type canonical_key z) (payload : Bytes)
      → Decodes decode
      → IsPacked media_type canonical_key z g payload
      → Delivers decode (close_zw media_type canonical_key z g).rw payload
  unfolding close_zw
  close_zw-Delivers decode g payload law h =
      let (body, sent, done) = write_committed (close_z h.at_zw) g.rw h.done in
      rw h.has_zw (
        gzipped done (ap (values (codes "Content-Encoding")) sent ∙ h.gzipped)
          (rw body (law h.at_zw g.rw.body payload h.feeds)))

  commit_identity-Delivers :
      (decode : Bytes → Option Bytes) (g : GzipWriter media_type canonical_key z) (payload : Bytes)
      → Settled media_type canonical_key z g payload
      → (g.state ≡ identity)
      → Delivers decode g.rw payload
  commit_identity-Delivers decode g payload (plain e body done) at_ = as_written done body
  commit_identity-Delivers decode g payload (holds e _ _ _ _) at_ = cc
  commit_identity-Delivers decode g payload (packs h) at_ = absurd (cc (h.state, at_))

  pub commit_identity_state :
      (g : GzipWriter media_type canonical_key z)
      → (commit_identity media_type canonical_key z g).state ≡ identity
  unfolding commit_identity send_held
  commit_identity_state g = elim (Bool-cases (is_nil g.buf)) [
    | inl e ↦ rw e refl
    | inr e ↦ rw e refl
  ]

  finish_in-Delivers :
      (decode : Bytes → Option Bytes) (g : GzipWriter media_type canonical_key z) (payload : Bytes)
      → Decodes decode
      → Settled media_type canonical_key z g payload
      → Delivers decode (finish_in media_type canonical_key z g.state g).rw payload
  unfolding finish_in
  finish_in-Delivers decode g payload law (packs h) =
      rw (ap (λ x. finish_in media_type canonical_key z x g) h.state)
        (close_zw-Delivers decode g payload law h)
  finish_in-Delivers decode g payload law (plain e body done) =
      rw (ap (λ x. finish_in media_type canonical_key z x g) e) (as_written done body)
  finish_in-Delivers decode g payload law (holds e buf none_yet open_ final) =
      rw (ap (λ x. finish_in media_type canonical_key z x g) e) (
        commit_identity-Delivers decode _ payload
          (commit_identity-Settled media_type canonical_key z g payload buf none_yet open_ final)
          (commit_identity_state g))

  edit-IsWriting :
      (f : Header → Header) (g : GzipWriter media_type canonical_key z) (payload : Bytes)
      → IsWriting media_type canonical_key z g payload
      → IsWriting media_type canonical_key z (call media_type canonical_key z (edits f) g) payload
  edit-IsWriting f g payload (waits h) =
      waits (record {
        state = h.state;
        nothing = h.nothing;
        buf = h.buf;
        body = h.body;
        open_ = h.open_;
      })
  edit-IsWriting f g payload (settled (holds e buf none_yet open_ final)) =
      settled (holds e buf none_yet open_ final)
  edit-IsWriting f g payload (settled (plain e body done)) = settled (plain e body done)
  edit-IsWriting f g payload (settled (packs h)) = settled (
      packs (record {
        at_zw = h.at_zw;
        state = h.state;
        has_zw = h.has_zw;
        feeds = h.feeds;
        done = h.done;
        gzipped = h.gzipped;
      }))

  call-IsWriting :
      (c : Call) (g : GzipWriter media_type canonical_key z) (payload : Bytes)
      → IsWriting media_type canonical_key z g payload
      → IsWriting media_type canonical_key z
          (call media_type canonical_key z c g)
          (payload ++ wrote_by c)
  unfolding write flush
  call-IsWriting (sets_status code) g payload h =
      rw append-nil (write_header-IsWriting media_type canonical_key z code g payload h)
  call-IsWriting (writes p) g payload h = settled (
      write_in-Settled media_type canonical_key z p _ payload
        (implicit_status-Settled media_type canonical_key z g payload h))
  call-IsWriting flushes g payload h = rw append-nil (
      settled (
        flush_in-Settled media_type canonical_key z _ payload
          (implicit_status-Settled media_type canonical_key z g payload h)))
  call-IsWriting (edits f) g payload h = rw append-nil (edit-IsWriting f g payload h)

  pub calls-IsWriting :
      (cs : List Call) (g : GzipWriter media_type canonical_key z) (payload : Bytes)
      → IsWriting media_type canonical_key z g payload
      → IsWriting media_type canonical_key z
          (calls media_type canonical_key z cs g)
          (payload ++ written cs)
  calls-IsWriting [] g payload h = rw append-nil h
  calls-IsWriting (c ∷ cs) g payload h = rw (sym (append_assoc payload (wrote_by c) (written cs))) (
      calls-IsWriting cs (call media_type canonical_key z c g) (payload ++ wrote_by c)
        (call-IsWriting c g payload h))

  -- Whatever a handler writes, in any pieces, with any flushes, status codes and edits of the header
  -- between: once it has
  -- returned, the response is sent, and its body is what was written, or is marked as gzip and decodes
  -- to it. This is for a compressor whose closed stream the decoder reads, a response with nothing
  -- sent before, and a handler that neither panics nor takes over the connection.
  pub finish-Delivers :
      (decode : Bytes → Option Bytes) (cfg : GzipConfig) (accepts : Bool) (w : Response)
      (cs : List Call)
      → Decodes decode
      → is_committed w ≡ false
      → w.body ≡ []
      → let g =
          calls media_type canonical_key z cs
            (new_writer media_type canonical_key z cfg accepts w) in
        Delivers decode (finish media_type canonical_key z g).rw (written cs)
  unfolding finish new_writer
  finish-Delivers decode cfg accepts w cs law open_ none_yet =
      let start =
        waits
          (record { state = refl; nothing = refl; buf = refl; body = none_yet; open_ = open_ }) in
      finish_in-Delivers decode _ (written cs) law (
        implicit_status-Settled media_type canonical_key z _ (written cs)
          (calls-IsWriting cs _ [] start))
