-- ===== src/Gzip/Serve.antt =====
-- gzip.go: the options, and the middleware around the writer.
use webhttp.Prelude.{
  ℕ, Bool, false, ◌&&◌, not, List, [], ◌∷◌, Option, none, some, if◌then◌else◌, ltb, Bytes, codes,
  eq_bytes, ◌>>=◌,
}
use webhttp.Http.{Request, Response, Outcome, returned, Handler}
use webhttp.Gzip.{GzipConfig, gzip_type_entry, accepts_gzip}
use webhttp.Gzip.Calls.{Call, direct_calls, calls}
use webhttp.Gzip.Writer.{Compressor, GzipWriter, new_writer, finish, abort}

abbrev pub default_gzip_min_bytes : ℕ
default_gzip_min_bytes = 1024

pub data GzipOption : Type 0 where
  -- a number below 1 is 0 here, as in `max`
  with_gzip_min_bytes : ℕ → GzipOption
  with_gzip_skip : Option (Request → Bool) → GzipOption
  -- the entries that WithGzipTypes has normalised
  with_normal_types : List Bytes → GzipOption

-- `none` where an entry is refused: the code panics
type_entries : List Bytes → Option (List Bytes)
type_entries [] = some []
type_entries (t ∷ ts) = do norm ← gzip_type_entry t; set ← type_entries ts; some (norm ∷ set)

unfoldable pub with_gzip_types : List Bytes → Option GzipOption
unfolding type_entries gzip_type_entry
with_gzip_types types = do set ← type_entries types; some (with_normal_types set)

apply_option : GzipOption → GzipConfig → GzipConfig
apply_option (with_gzip_min_bytes n) c = record c { min_bytes = if ltb n 1 then 1 else n }
apply_option (with_gzip_skip none) c = c
apply_option (with_gzip_skip (some skip)) c = record c { skip = some skip }
apply_option (with_normal_types types) c = record c { types = types }

apply_options : List (Option GzipOption) → GzipConfig → GzipConfig
unfolding apply_option
apply_options [] c = c
apply_options (none ∷ opts) c = apply_options opts c
apply_options (some o ∷ opts) c = apply_options opts (apply_option o c)

unfoldable pub gzip_config : List (Option GzipOption) → GzipConfig
unfolding apply_options
gzip_config opts = apply_options opts (record {
  skip = none;
  types = codes "application/json" ∷ codes "+json" ∷ [];
  min_bytes = default_gzip_min_bytes;
})

-- What a handler does with a request: its calls on the writer it is given, and how it ends.
abbrev pub Scripted : Type 0
Scripted = Request → List Call × Outcome

abbrev pub skips : Option (Request → Bool) → Request → Bool
skips none r = false
skips (some skip) r = skip r

-- a HEAD response has no body to compress
abbrev pub offers : Request → Bool
offers r = not (eq_bytes r.method (codes "HEAD")) && accepts_gzip r.header

module _ (media_type : Bytes → Option Bytes) (canonical_key : Bytes → Bytes) (z : Compressor) where
  -- behind the handler: `finish`, or the deferred `abort`
  abbrev pub settle : Outcome → GzipWriter media_type canonical_key z → Response
  settle returned g = (finish media_type canonical_key z g).rw
  settle _ g = (abort media_type canonical_key z g).rw

  unfoldable pub gzip : GzipConfig → Scripted → Handler
  unfolding new_writer
  gzip c next r w =
      let (cs, end) = next r in
      if skips c.skip r then (direct_calls cs w, end) else (
        settle end (
            calls media_type canonical_key z cs
              (new_writer media_type canonical_key z c (offers r) w)),
        end,
      )
