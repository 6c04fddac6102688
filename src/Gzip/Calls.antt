-- ===== src/Gzip/Calls.antt =====
-- What a handler does to its ResponseWriter, whichever writer that is: a run of calls.
use webhttp.Prelude.{ℕ, List, [], ◌∷◌, ◌++◌, Option, Bytes}
use webhttp.Header.{Header}
use webhttp.Http
use webhttp.Http.{Response}
use webhttp.Gzip.Writer.{Compressor, GzipWriter, write_header, write, flush}

pub data Call : Type 0 where
  sets_status : ℕ → Call
  writes : Bytes → Call
  flushes : Call
  -- an edit of the header map
  edits : (Header → Header) → Call

abbrev pub wrote_by : Call → Bytes
wrote_by (writes p) = p
wrote_by _ = []

abbrev pub written : List Call → Bytes
written [] = []
written (c ∷ cs) = wrote_by c ++ written cs

-- the calls on the server's own writer; a flush sends the implicit 200
abbrev pub direct : Call → Response → Response
direct (sets_status code) w = Http.write_header code w
direct (writes p) w = Http.write p w
direct flushes w = Http.write [] w
direct (edits f) w = record w { header = f w.header }

abbrev pub direct_calls : List Call → Response → Response
direct_calls [] w = w
direct_calls (c ∷ cs) w = direct_calls cs (direct c w)

module _ (media_type : Bytes → Option Bytes) (canonical_key : Bytes → Bytes) (z : Compressor) where
  abbrev pub call :
      Call → GzipWriter media_type canonical_key z → GzipWriter media_type canonical_key z
  call (sets_status code) g = write_header media_type canonical_key z code g
  call (writes p) g = write media_type canonical_key z p g
  call flushes g = flush media_type canonical_key z g
  call (edits f) g = record g { rw = record g.rw { header = f g.rw.header } }

  abbrev pub calls :
      List Call → GzipWriter media_type canonical_key z → GzipWriter media_type canonical_key z
  calls [] g = g
  calls (c ∷ cs) g = calls cs (call c g)
