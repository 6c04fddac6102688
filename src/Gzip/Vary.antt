-- ===== src/Gzip/Vary.antt =====
-- The headers that go out: which responses name Accept-Encoding in Vary, and what a compressed one has.
use webhttp.Prelude.{
  ℕ, Bool, true, false, ◌||◌, not, Option, some, ◌≡◌, refl, sym, ◌∙◌, Bytes, codes, is_nil, keep,
  arith, if◌then◌else◌, Bool-cases, Option-cases, inl, inr,
}
use webhttp.FieldList.{field_list}
use webhttp.Header.{Header, values}
use webhttp.Http
use webhttp.Http.{Response, is_committed, is_interim}
use webhttp.Gzip.{GzipConfig, candidate, compresses_status, add_vary_accept_encoding}
use webhttp.Gzip.Writer.{
  pending, buffering, identity, compressed, Compressor, is_trailer_key, mark_compressed, GzipWriter,
  decide_status, restore_header, send_held, write_zw, commit_compressed, commit_identity, flush_zw,
}
use webhttp.Gzip.Sending.{final_status, send_final, write_committed}
use webhttp.Gzip.Marked.{
  varies, add_vary-varies, vary_there, values-keep, values-append, IsMarked,
  mark_compressed-IsMarked,
}

written_status :
    (b : Bytes) (w : Response) → is_committed w ≡ true → (Http.write b w).status ≡ w.status
unfolding Http.write Http.write_header
written_status b w done = ground arith

module _ (media_type : Bytes → Option Bytes) (canonical_key : Bytes → Bytes) (z : Compressor) where
  restored-varies :
      (h held : Header)
      → varies held ≡ true
      → varies (restore_header media_type canonical_key z h held).1 ≡ true
  unfolding restore_header field_list
  restored-varies h held v =
      let name = codes "Vary" in
      let front = keep (λ kv. not (is_trailer_key kv.0)) held in
      let back = keep (λ kv. is_trailer_key kv.0) h in
      let kept : values name front ≡ values name held =
        values-keep name (λ k. not (is_trailer_key k)) held refl in
      let there : is_nil (values name front) ≡ false = rw kept (vary_there held v) in
      rw (values-append name front back there, kept) v

  module _ (cfg : GzipConfig) where
    -- what a response sent without compression owes its clients
    abbrev pub NamesEncoding : Response → Type 0
    NamesEncoding w =
        (s : ℕ)
        → w.status ≡ some s
        → candidate media_type cfg s w.sent ≡ true
        → varies w.sent ≡ true

    -- The writer in each state, as to the header it sends or will send.
    pub data Promises (g : GzipWriter media_type canonical_key z) : Type 0 where
      undecided : g.state ≡ pending → g.cfg ≡ cfg → is_committed g.rw ≡ false → Promises g
      held_back :
          g.state ≡ buffering
          → varies g.held ≡ true
          → is_committed g.rw ≡ false
          → is_interim g.status ≡ false
          → Promises g
      as_is : g.state ≡ identity → is_committed g.rw ≡ true → NamesEncoding g.rw → Promises g
      packed : g.state ≡ compressed → is_committed g.rw ≡ true → IsMarked g.rw.sent → Promises g

    pub decide_status-Promises :
        (code : ℕ) (g : GzipWriter media_type canonical_key z)
        → is_committed g.rw ≡ false
        → is_interim code ≡ false
        → Promises (
            decide_status media_type canonical_key z code
              (candidate media_type cfg code g.rw.header)
              g)
    unfolding decide_status
    decide_status-Promises code g open_ final =
        elim (Bool-cases (candidate media_type cfg code g.rw.header)) [
          | inr plain ↦
              let (body, sent, done) = send_final code g.rw open_ final in
              let status = final_status code g.rw open_ final in
              rw plain (as_is refl done (λ s e c. absurd (cc (status, sent, e, c, plain))))
          | inl yes_ ↦
              let head = add_vary_accept_encoding g.rw.header in
              let w0 : Response = record g.rw { header = head } in
              let (body, sent, done) = send_final code w0 open_ final in
              let v = add_vary-varies g.rw.header in
              elim (Bool-cases (not g.accepts || not (compresses_status code))) [
                | inl at_once ↦ rw (yes_, at_once) (as_is refl done (λ s e c. rw sent v))
                | inr later ↦ rw (yes_, later) (held_back refl v open_ final)
              ]
        ]

    names_varying : (w : Response) → varies w.sent ≡ true → NamesEncoding w
    names_varying w v s e c = v

    -- More of the body changes neither the status nor what went out with it.
    pub names_written :
        (b : Bytes) (w : Response)
        → is_committed w ≡ true
        → NamesEncoding w
        → NamesEncoding (Http.write b w)
    names_written b w done names s e c =
        let (body, sent, still) = write_committed b w done in
        rw sent (names s (sym (written_status b w done) ∙ e) (rw sent at c))

    send_held_sends :
        (c : Bool) (g : GzipWriter media_type canonical_key z)
        → varies g.held ≡ true
        → is_committed g.rw ≡ false
        → is_interim g.status ≡ false
        → let w = (send_held media_type canonical_key z c g).rw in
          (is_committed w ≡ true)
          × (c ≡ true → IsMarked w.sent)
          × (c ≡ false → varies w.sent ≡ true)
    unfolding send_held
    send_held_sends c g v open_ final =
        let h = (restore_header media_type canonical_key z g.rw.header g.held).1 in
        let w0 : Response = record g.rw { header = if c then mark_compressed h else h } in
        let (body, sent, done) = send_final g.status w0 open_ final in
        let restored = restored-varies g.rw.header g.held v in
        (done, λ e. rw (sent, e) (mark_compressed-IsMarked h restored), λ e. rw (sent, e) restored)

    pub commit_identity-Promises :
        (g : GzipWriter media_type canonical_key z)
        → varies g.held ≡ true
        → is_committed g.rw ≡ false
        → is_interim g.status ≡ false
        → Promises (commit_identity media_type canonical_key z g)
    unfolding commit_identity send_held
    commit_identity-Promises g v open_ final =
        let g1 = send_held media_type canonical_key z false (record g { state = identity }) in
        let (done, _, named) =
          send_held_sends false (record g { state = identity }) v open_ final in
        let names = names_varying g1.rw (named refl) in
        let (body, sent, still) = write_committed g.buf g1.rw done in
        elim (Bool-cases (is_nil g.buf)) [
          | inl empty ↦ rw empty (as_is refl done names)
          | inr some_ ↦ rw some_ (as_is refl still (names_written g.buf g1.rw done names))
        ]

    pub write_zw-Promises :
        (p : Bytes) (g : GzipWriter media_type canonical_key z)
        → g.state ≡ compressed
        → is_committed g.rw ≡ true
        → IsMarked g.rw.sent
        → Promises (write_zw media_type canonical_key z p g)
    unfolding write_zw
    write_zw-Promises p g e done marked = elim (Option-cases g.zw) [
      | inl idle ↦ rw idle (packed e done marked)
      | inr (zw, busy) ↦
          let (body, sent, still) = write_committed (z.write_z p zw).1 g.rw done in
          rw busy (packed e still (rw sent marked))
    ]

    pub flush_zw-Promises :
        (g : GzipWriter media_type canonical_key z)
        → g.state ≡ compressed
        → is_committed g.rw ≡ true
        → IsMarked g.rw.sent
        → Promises (flush_zw media_type canonical_key z g)
    unfolding flush_zw
    flush_zw-Promises g e done marked = elim (Option-cases g.zw) [
      | inl idle ↦ rw idle (packed e done marked)
      | inr (zw, busy) ↦
          let (body, sent, still) = write_committed (z.flush_z zw).1 g.rw done in
          rw busy (packed e still (rw sent marked))
    ]

    pub commit_compressed_state :
        (g : GzipWriter media_type canonical_key z)
        → varies g.held ≡ true
        → is_committed g.rw ≡ false
        → is_interim g.status ≡ false
        → let g' = commit_compressed media_type canonical_key z g in
          (g'.state ≡ compressed) × (is_committed g'.rw ≡ true) × IsMarked g'.rw.sent
    unfolding commit_compressed write_zw send_held
    commit_compressed_state g v open_ final =
        let g1 = send_held media_type canonical_key z true (record g { state = compressed }) in
        let (done, marked, _) =
          send_held_sends true (record g { state = compressed }) v open_ final in
        let (body, sent, still) = write_committed (z.write_z g.buf z.reset).1 g1.rw done in
        (refl, still, rw sent (marked refl))
