-- ===== src/Gzip/Recorded.antt =====
-- Under a recorder, the writer sends nothing that the recorder does not see.
use webhttp.Prelude.{
  ℕ, Bool, true, false, ◌||◌, not, List, [], ◌∷◌, Option, none, some, ◌≡◌, Bytes, arith, Bool-cases,
  inl, inr, is_nil, ltb, length, ◌+◌,
}
use webhttp.Http
use webhttp.Http.{Response, is_committed}
use webhttp.Middleware.{wrote}
use webhttp.Gzip.Calls.{Call, sets_status, writes, flushes, edits, calls}
use webhttp.Gzip.Writer.{
  Compressor, GzipWriter, GzipState, pending, buffering, identity, compressed, hijacked,
  decide_status, write_header, implicit_status, send_held, write_zw, commit_compressed,
  commit_identity, write_in, write, flush_zw, flush_in, flush,
}

-- There is a recorder, and where it has seen nothing, no status is sent.
abbrev pub is_recorded : Response → Bool
is_recorded w = elim w.recorder [ none ↦ false | some b ↦ b || not (is_committed w) ]

http_write_header-is_recorded :
    (code : ℕ) (w : Response) → is_recorded w ≡ true → is_recorded (Http.write_header code w) ≡ true
unfolding Http.write_header
http_write_header-is_recorded code w h = ground arith

http_write-is_recorded :
    (b : Bytes) (w : Response) → is_recorded w ≡ true → is_recorded (Http.write b w) ≡ true
unfolding Http.write Http.write_header
http_write-is_recorded b w h = ground arith

pub unseen_open : (w : Response) → is_recorded w ≡ true → wrote w ≡ false → is_committed w ≡ false
unseen_open w h e = ground arith

module _ (media_type : Bytes → Option Bytes) (canonical_key : Bytes → Bytes) (z : Compressor) where
  abbrev Writer : Type 0
  Writer = GzipWriter media_type canonical_key z

  decide_status-is_recorded :
      (code : ℕ) (is_candidate : Bool) (g : Writer)
      → is_recorded g.rw ≡ true
      → is_recorded (decide_status media_type canonical_key z code is_candidate g).rw ≡ true
  unfolding decide_status Http.write_header
  decide_status-is_recorded code is_candidate g h = ground arith

  write_header-is_recorded :
      (code : ℕ) (g : Writer)
      → is_recorded g.rw ≡ true
      → is_recorded (write_header media_type canonical_key z code g).rw ≡ true
  unfolding write_header
  write_header-is_recorded code g h =
      grind (arith, decide_status-is_recorded, http_write_header-is_recorded)

  implicit_status-is_recorded :
      (g : Writer)
      → is_recorded g.rw ≡ true
      → is_recorded (implicit_status media_type canonical_key z g).rw ≡ true
  unfolding implicit_status
  implicit_status-is_recorded g h = ground (arith, write_header-is_recorded 200 g)

  send_held-is_recorded :
      (is_compressed : Bool) (g : Writer)
      → is_recorded g.rw ≡ true
      → is_recorded (send_held media_type canonical_key z is_compressed g).rw ≡ true
  unfolding send_held Http.write_header
  send_held-is_recorded is_compressed g h = ground arith

  write_zw-is_recorded :
      (p : Bytes) (g : Writer)
      → is_recorded g.rw ≡ true
      → is_recorded (write_zw media_type canonical_key z p g).rw ≡ true
  unfolding write_zw Http.write Http.write_header
  write_zw-is_recorded p g h = ground arith

  commit_compressed-is_recorded :
      (g : Writer)
      → is_recorded g.rw ≡ true
      → is_recorded (commit_compressed media_type canonical_key z g).rw ≡ true
  unfolding commit_compressed
  commit_compressed-is_recorded g h =
      let g1 = send_held media_type canonical_key z true (record g { state = compressed }) in
      write_zw-is_recorded g.buf (record g1 { zw = some z.reset })
        (send_held-is_recorded true (record g { state = compressed }) h)

  commit_identity-is_recorded :
      (g : Writer)
      → is_recorded g.rw ≡ true
      → is_recorded (commit_identity media_type canonical_key z g).rw ≡ true
  unfolding commit_identity
  commit_identity-is_recorded g h =
      let g1 = send_held media_type canonical_key z false (record g { state = identity }) in
      let sent = send_held-is_recorded false (record g { state = identity }) h in
      elim (Bool-cases (is_nil g.buf)) [
        | inl nothing ↦ rw nothing sent
        | inr some_ ↦ rw some_ (http_write-is_recorded g.buf g1.rw sent)
      ]

  write_in-is_recorded :
      (s : GzipState) (p : Bytes) (g : Writer)
      → is_recorded g.rw ≡ true
      → is_recorded (write_in media_type canonical_key z s p g).rw ≡ true
  unfolding write_in
  write_in-is_recorded buffering p g h =
      let g1 = commit_compressed media_type canonical_key z g in
      let sent = write_zw-is_recorded p g1 (commit_compressed-is_recorded g h) in
      elim (Bool-cases (ltb (length g.buf + length p) g.cfg.min_bytes)) [
        | inl held ↦ rw held h
        | inr full ↦ rw full sent
      ]
  write_in-is_recorded compressed p g h = write_zw-is_recorded p g h
  write_in-is_recorded hijacked p g h = h
  write_in-is_recorded pending p g h = http_write-is_recorded p g.rw h
  write_in-is_recorded identity p g h = http_write-is_recorded p g.rw h

  flush_in-is_recorded :
      (s : GzipState) (g : Writer)
      → is_recorded g.rw ≡ true
      → is_recorded (flush_in media_type canonical_key z s g).rw ≡ true
  unfolding flush_in flush_zw Http.write Http.write_header
  flush_in-is_recorded buffering g h = commit_identity-is_recorded g h
  flush_in-is_recorded compressed g h = ground arith
  flush_in-is_recorded hijacked g h = h
  flush_in-is_recorded pending g h = h
  flush_in-is_recorded identity g h = h

  pub calls-is_recorded :
      (cs : List Call) (g : Writer)
      → is_recorded g.rw ≡ true
      → is_recorded (calls media_type canonical_key z cs g).rw ≡ true
  unfolding write flush
  calls-is_recorded [] g h = h
  calls-is_recorded (sets_status code ∷ cs) g h =
      calls-is_recorded cs _ (write_header-is_recorded code g h)
  calls-is_recorded (writes p ∷ cs) g h =
      calls-is_recorded cs _ (write_in-is_recorded _ p _ (implicit_status-is_recorded g h))
  calls-is_recorded (flushes ∷ cs) g h =
      calls-is_recorded cs _ (flush_in-is_recorded _ _ (implicit_status-is_recorded g h))
  calls-is_recorded (edits f ∷ cs) g h = calls-is_recorded cs _ h
