-- ===== src/Static.antt =====
-- static.go: embedded files with their precompressed form. A map is an association list, the newest
-- entry first; the walk that fills the maps is in `Maps`.
pub mod Match
pub mod Maps
pub mod Build
pub mod Answer
pub mod Serve
mod Tests
use webhttp.Prelude.{
  ℕ, suc, ◌+◌, Bool, true, false, ◌&&◌, ◌||◌, not, List, [], ◌∷◌, ◌++◌, Option, none, some, ◌==◌,
  ltb, if◌then◌else◌, is_nil, length, Bytes, codes, eq_bytes, cut_prefix, trim, itoa,
}
use webhttp.FieldList.{entity_tag_list, field_list}
use webhttp.Header.{Header, get, set, add}
use webhttp.Http.{Request, Response, returned, Handler, Outcome, write_header, write}
use webhttp.Gzip.{accepts_gzip}

pub record GzAsset : Type 0 where
  pub content_type : Bytes
  pub body : Bytes

-- `strings.TrimPrefix(member, "W/")`
abbrev pub without_weak : Bytes → Bytes
without_weak member = elim (cut_prefix (codes "W/") member) [ some strong ↦ strong | none ↦ member ]

-- the loop of ifNoneMatch: how many members there were, and whether the last was "*"
unfoldable pub match_loop : Bytes → ℕ → Bool → List Bytes → Bool
match_loop etag members wildcard [] = wildcard && members == 1
match_loop etag members wildcard (member ∷ rest) =
    let more = match_loop etag (suc members) (eq_bytes member (codes "*")) rest in
    eq_bytes (without_weak member) etag || more

unfoldable pub if_none_match : Header → Bytes → Bool
unfolding match_loop field_list
if_none_match h etag =
    match_loop etag 0 false (field_list h (codes "If-None-Match") entity_tag_list)

abbrev pub gz_etag : Bytes → Bytes
gz_etag etag = b'"' ∷ (trim (λ c. c == b'"') etag ++ codes "-gz\"")

-- `none` is `false`: the caller serves the file as it is.
unfoldable pub serve_gzip : Request → Bytes → GzAsset → Response → Option Response
unfolding if_none_match accepts_gzip
serve_gzip r etag gz w =
    if not (eq_bytes r.method (codes "GET")) && not (eq_bytes r.method (codes "HEAD"))
    then none
    else if not (is_nil (get (codes "Range") r.header)) || not (accepts_gzip r.header)
    then none
    else let tagged : Response = record w { header = set (codes "Etag") (gz_etag etag) w.header } in
      if if_none_match r.header (gz_etag etag)
      then some (write_header 304 tagged)
      else let h1 = set (codes "Content-Encoding") (codes "gzip") tagged.header in
        let h2 = set (codes "Content-Type") gz.content_type h1 in
        let h3 = set (codes "Content-Length") (itoa (length gz.body)) h2 in
        let w' : Response = record w { header = h3 } in
        if eq_bytes r.method (codes "HEAD") then some w' else some (write gz.body w')

abbrev pub lookup {ℓ} : {A : Type ℓ} → Bytes → List (Bytes × A) → Option A
lookup k [] = none
lookup k ((j, v) ∷ m) = if eq_bytes j k then some v else lookup k m

-- `strings.TrimPrefix(path, "/")`, and "index.html" for the root
abbrev pub asset_name : Bytes → Bytes
asset_name [] = codes "index.html"
asset_name (c ∷ p) =
    let name = if c == b'/' then p else c ∷ p in if is_nil name then codes "index.html" else name

abbrev set_if_some : Bytes → Header → Header
set_if_some cc h = if is_nil cc then h else set (codes "Cache-Control") cc h

-- path.Clean and http.FileServer are parameters.
module _ (path_clean : Bytes → Bytes) (file_server : Handler) where
  abbrev or_file_server : Option Response → Request → Response → Response × Outcome
  or_file_server (some w) r w' = (w, returned)
  or_file_server none r w' = file_server r w'

  unfoldable pub static_handler :
      (Bytes → Bytes) → List (Bytes × Bytes) → List (Bytes × GzAsset) → Handler
  static_handler cache_control etags gzipped r w =
      let name = asset_name (path_clean r.path) in
      let w' : Response = elim (lookup name etags) [
        | none ↦ w
        | some etag ↦
            let h = set_if_some (cache_control name) (set (codes "Etag") etag w.header) in
            record w { header = add (codes "Vary") (codes "Accept-Encoding") h }
      ] in
      let etag : Bytes = elim (lookup name etags) [ none ↦ [] | some e ↦ e ] in
      elim (lookup name gzipped) [
        | none ↦ file_server r w'
        | some gz ↦ or_file_server (serve_gzip r etag gz w') r w'
      ]
