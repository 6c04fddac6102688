-- ===== src/Gzip/Writer.antt =====
-- gzip.go: the writer that holds a response back until its size is known, then sends it as written
-- or compressed. A write on the wrapped writer is taken to succeed.
use webhttp.Prelude.{
  ℕ, ◌+◌, Bool, true, false, ◌||◌, not, List, [], ◌∷◌, ◌++◌, Option, none, some, ltb, if◌then◌else◌,
  is_nil, keep, length, Bytes, codes, cut_prefix,
}
use webhttp.FieldList.{token_list, field_list}
use webhttp.Header.{Header, get, values, put, set, del}
use webhttp.Http
use webhttp.Http.{Response, is_interim}
use webhttp.Gzip.{GzipConfig, candidate, compresses_status, add_vary_accept_encoding}

pub data GzipState : Type 0 where
  pending buffering identity compressed hijacked : GzipState

-- compress/gzip's Writer: its state, and the bytes that each call passes on.
pub record Compressor : Type 1 where
  pub Zw : Type 0
  pub reset : Zw
  pub write_z : Bytes → Zw → Zw × Bytes
  pub flush_z : Zw → Zw × Bytes
  pub close_z : Zw → Bytes

-- a field under http.TrailerPrefix
abbrev pub is_trailer_key : Bytes → Bool
is_trailer_key k = elim (cut_prefix (codes "Trailer:") k) [ none ↦ false | some _ ↦ true ]

unfoldable pub mark_compressed : Header → Header
mark_compressed h =
    let h' =
      del (codes "Accept-Ranges")
        (del (codes "Content-Length") (set (codes "Content-Encoding") (codes "gzip") h)) in
    let etag = get (codes "Etag") h' in
    if is_nil etag then h' else elim (cut_prefix (codes "W/") etag) [
      | some _ ↦ h'
      | none ↦ set (codes "Etag") (codes "W/" ++ etag) h'
    ]

-- `maps.Copy`
copy_all : Header → Header → Header
copy_all [] h = h
copy_all ((k, vs) ∷ kvs) h = copy_all kvs (put k vs h)

module _ (media_type : Bytes → Option Bytes) (canonical_key : Bytes → Bytes) (z : Compressor) where
  open z use {Zw, reset, write_z, flush_z, close_z}

  pub record GzipWriter : Type 0 where
    pub rw : Response
    pub cfg : GzipConfig
    pub zw : Option Zw
    pub held : Header
    pub buf : Bytes
    pub status : ℕ
    pub accepts : Bool
    pub state : GzipState

  -- `restoreHeader`: the values that `h` holds for the declared trailers, and `h` reset to `held`
  declared_trailers : List Bytes → Header → Header
  declared_trailers [] h = []
  declared_trailers (name ∷ names) h =
      let vs = values (canonical_key name) h in
      let rest = declared_trailers names h in
      if is_nil vs then rest else (canonical_key name, vs) ∷ rest

  unfoldable pub restore_header : Header → Header → Header × Header
  unfolding declared_trailers
  restore_header h held = (
    declared_trailers (field_list held (codes "Trailer") token_list) h,
    keep (λ kv. not (is_trailer_key kv.0)) held ++ keep (λ kv. is_trailer_key kv.0) h,
  )

  -- a final status: sent at once, or held back with the header as it stands
  unfoldable pub decide_status : ℕ → Bool → GzipWriter → GzipWriter
  decide_status code is_candidate g =
      let h = if is_candidate then add_vary_accept_encoding g.rw.header else g.rw.header in
      let rw' = record g.rw { header = h } in
      if not is_candidate || not g.accepts || not (compresses_status code)
      then record g { state = identity; rw = Http.write_header code rw' }
      else record g { state = buffering; status = code; held = h; rw = rw' }

  unfoldable pub write_header : ℕ → GzipWriter → GzipWriter
  unfolding decide_status
  write_header code g = elim g.state [
    | pending ↦
        if is_interim code
        then record g { rw = Http.write_header code g.rw }
        else decide_status code (candidate media_type g.cfg code g.rw.header) g
    | _ ↦ g
  ]

  unfoldable pub implicit_status : GzipWriter → GzipWriter
  unfolding write_header
  implicit_status g = elim g.state [ pending ↦ write_header 200 g | _ ↦ g ]

  unfoldable pub send_held : Bool → GzipWriter → GzipWriter
  unfolding copy_all
  send_held is_compressed g =
      let (trailers, h) = restore_header g.rw.header g.held in
      let h' = if is_compressed then mark_compressed h else h in
      let sent = Http.write_header g.status (record g.rw { header = h' }) in
      record g { held = []; rw = record sent { header = copy_all trailers sent.header } }

  -- `g.zw.Write(p)`; without a compressor, which the state machine rules out, nothing
  unfoldable pub write_zw : Bytes → GzipWriter → GzipWriter
  write_zw p g = elim g.zw [
    | none ↦ g
    | some zw ↦
        let (zw', out) = write_z p zw in record g { zw = some zw'; rw = Http.write out g.rw }
  ]

  unfoldable pub commit_compressed : GzipWriter → GzipWriter
  unfolding write_zw
  commit_compressed g =
      let g1 = send_held true (record g { state = compressed }) in
      let g2 = write_zw g.buf (record g1 { zw = some reset }) in record g2 { buf = [] }

  unfoldable pub commit_identity : GzipWriter → GzipWriter
  commit_identity g =
      let g1 = send_held false (record g { state = identity }) in
      if is_nil g.buf then g1 else record g1 { rw = Http.write g.buf g1.rw; buf = [] }

  -- behind the implicit status
  unfoldable pub write_in : GzipState → Bytes → GzipWriter → GzipWriter
  unfolding write_zw
  write_in buffering p g =
      if ltb (length g.buf + length p) g.cfg.min_bytes
      then record g { buf = g.buf ++ p }
      else write_zw p (commit_compressed g)
  write_in compressed p g = write_zw p g
  write_in hijacked p g = g
  write_in _ p g = record g { rw = Http.write p g.rw }

  unfoldable pub write : Bytes → GzipWriter → GzipWriter
  unfolding write_in
  write p g = let g' = implicit_status g in write_in g'.state p g'

  unfoldable pub flush_zw : GzipWriter → GzipWriter
  flush_zw g = elim g.zw [
    | none ↦ g
    | some zw ↦ let (zw', out) = flush_z zw in record g { zw = some zw'; rw = Http.write out g.rw }
  ]

  -- the flush of the wrapped writer, whose response is sent by then, adds nothing to it
  unfoldable pub flush_in : GzipState → GzipWriter → GzipWriter
  flush_in buffering g = commit_identity g
  flush_in compressed g = flush_zw g
  flush_in _ g = g

  unfoldable pub flush : GzipWriter → GzipWriter
  unfolding flush_in flush_zw
  flush g = let g' = implicit_status g in flush_in g'.state g'

  -- The compressor goes back to the pool, from which it is reset before each use.
  abbrev pub release : GzipWriter → GzipWriter
  release g = record g { zw = none }

  -- a hijack that succeeds
  unfoldable pub hijack : GzipWriter → GzipWriter
  hijack g = record (release (record g { buf = [] })) { state = hijacked }

  unfoldable pub close_zw : GzipWriter → GzipWriter
  close_zw g = elim g.zw [
    | none ↦ g
    | some zw ↦ release (record g { rw = Http.write (close_z zw) g.rw })
  ]

  unfoldable pub finish_in : GzipState → GzipWriter → GzipWriter
  finish_in buffering g = commit_identity g
  finish_in compressed g = close_zw g
  finish_in _ g = g

  unfoldable pub finish : GzipWriter → GzipWriter
  unfolding finish_in close_zw
  finish g = let g' = implicit_status g in finish_in g'.state g'

  unfoldable pub abort : GzipWriter → GzipWriter
  abort g =
      let rw' : Response = elim g.state [
        | buffering ↦ record g.rw { header = del (codes "Content-Length") g.rw.header }
        | _ ↦ g.rw
      ] in
      release (record g { rw = rw'; buf = [] })

  unfoldable pub new_writer : GzipConfig → Bool → Response → GzipWriter
  new_writer cfg accepts w = record {
    rw = w;
    cfg = cfg;
    zw = none;
    held = [];
    buf = [];
    status = 0;
    accepts = accepts;
    state = pending;
  }
