-- ===== src/Static/Serve.antt =====
-- What a client gets of the files of a tree.
use webhttp.Prelude.{
  ◌<◌, true, false, List, [], Option, none, some, ◌≡◌, ◌⊎◌, refl, ◌∙◌, length, Bytes, codes, arith,
  Option-cases, inl, inr,
}
use mathlib.Core.Path.{subst}
use webhttp.Header.{Header, set, add}
use webhttp.Http.{Request, Response, is_committed, Outcome, returned, Handler}
use webhttp.Static.{GzAsset, gz_etag, serve_gzip, lookup, asset_name, set_if_some, static_handler}
use webhttp.Static.Answer.{wants_gzip, IsTagged, IsPackedAnswer, serve_gzip_answers, known-IsTagged}
use webhttp.Static.Maps.{
  WalkEntry, StaticOption, static_config, StaticMaps, quoted, gzip_asset, build_static_maps,
  new_static_handler,
}
use webhttp.Static.Build.{content_of, VisitsOnce, build_static_maps_holds, build_static_maps_lacks}

module _ (sum : Bytes → Bytes) (compress : Bytes → Option Bytes)
    (type_of_name type_of_content : Bytes → Bytes) (path_clean : Bytes → Bytes)
    (file_server : Handler) where
  abbrev asset : Bytes → Bytes → Option GzAsset
  asset b name = gzip_asset sum compress type_of_name type_of_content b name

  asset_body :
      (b name : Bytes) (gz : GzAsset)
      → asset b name ≡ some gz
      → (compress b ≡ some gz.body) × (length gz.body < length b)
  unfolding gzip_asset
  asset_body b name gz h = ground arith

  -- The answer to a request for a name, by what the tree's file of that name holds.
  pub data IsServed (decode : Bytes → Option Bytes) (name : Bytes) (es : List WalkEntry)
      (r : Request) (w : Response) (res : Response × Outcome) : Type 0 where
    unknown : content_of name es ≡ none → res ≡ file_server r w → IsServed decode name es r w res
    as_file :
        (b : Bytes) (h : Header)
        → content_of name es ≡ some b
        → (asset b name ≡ none) ⊎ (wants_gzip r ≡ false)
        → IsTagged (quoted (sum b)) w.header h
        → res ≡ file_server r (record w { header = h })
        → IsServed decode name es r w res
    packed :
        (b : Bytes) (gz : GzAsset)
        → content_of name es ≡ some b
        → decode gz.body ≡ some b
        → length gz.body < length b
        → wants_gzip r ≡ true
        → IsPackedAnswer r (gz_etag (quoted (sum b))) gz w.header res.0
        → res.1 ≡ returned
        → IsServed decode name es r w res

  -- the handler's answer, from what the maps have of the name
  answer_unknown :
      (cache_control : Bytes → Bytes) (m : StaticMaps) (r : Request) (w : Response)
      → lookup (asset_name (path_clean r.path)) m.etags ≡ none
      → lookup (asset_name (path_clean r.path)) m.gzipped ≡ none
      → static_handler path_clean file_server cache_control m.etags m.gzipped r w ≡ file_server r w
  unfolding static_handler
  answer_unknown cache_control m r w tags assets = ground arith

  -- the response of a known name
  abbrev known : (Bytes → Bytes) → Bytes → Bytes → Response → Response
  known cache_control name tag w = record w {
    header =
        add (codes "Vary") (codes "Accept-Encoding")
          (set_if_some (cache_control name) (set (codes "Etag") tag w.header));
  }

  answer_plain :
      (cache_control : Bytes → Bytes) (m : StaticMaps) (r : Request) (w : Response) (tag : Bytes)
      → let name = asset_name (path_clean r.path) in
        lookup name m.etags ≡ some tag
        → lookup name m.gzipped ≡ none
        → static_handler path_clean file_server cache_control m.etags m.gzipped r w
          ≡ file_server r (known cache_control name tag w)
  unfolding static_handler
  answer_plain cache_control m r w tag tags assets = ground arith

  answer_packed :
      (cache_control : Bytes → Bytes) (m : StaticMaps) (r : Request) (w : Response) (tag : Bytes)
      (gz : GzAsset) (w' : Response)
      → let name = asset_name (path_clean r.path) in
        lookup name m.etags ≡ some tag
        → lookup name m.gzipped ≡ some gz
        → serve_gzip r tag gz (known cache_control name tag w) ≡ some w'
        → static_handler path_clean file_server cache_control m.etags m.gzipped r w ≡ (w', returned)
  unfolding static_handler
  answer_packed cache_control m r w tag gz w' tags assets answer = ground arith

  answer_unpacked :
      (cache_control : Bytes → Bytes) (m : StaticMaps) (r : Request) (w : Response) (tag : Bytes)
      (gz : GzAsset)
      → let name = asset_name (path_clean r.path) in
        lookup name m.etags ≡ some tag
        → lookup name m.gzipped ≡ some gz
        → serve_gzip r tag gz (known cache_control name tag w) ≡ none
        → static_handler path_clean file_server cache_control m.etags m.gzipped r w
          ≡ file_server r (known cache_control name tag w)
  unfolding static_handler
  answer_unpacked cache_control m r w tag gz tags assets answer = ground arith

  served_by_maps :
      (decode : Bytes → Option Bytes) (opts : List (Option StaticOption)) (es : List WalkEntry)
      (r : Request) (w : Response)
      → ((b z : Bytes) → compress b ≡ some z → decode z ≡ some b)
      → VisitsOnce es
      → is_committed w ≡ false
      → w.body ≡ []
      → let (m, err) = build_static_maps sum compress type_of_name type_of_content es in
        err ≡ none
        → IsServed decode (asset_name (path_clean r.path)) es r w (
            static_handler path_clean file_server
              (static_config opts (λ p. codes "no-cache"))
              m.etags
              m.gzipped
              r
              w)
  served_by_maps decode opts es r w law once open_ empty ok =
      let name = asset_name (path_clean r.path) in
      let c = static_config opts (λ p. codes "no-cache") in
      let m = (build_static_maps sum compress type_of_name type_of_content es).0 in
      elim (Option-cases (content_of name es)) [
        | inl missing ↦
            let (tags, assets) =
              build_static_maps_lacks sum compress type_of_name type_of_content name es missing in
            unknown missing (answer_unknown c m r w tags assets)
        | inr (b, there) ↦
            let (tags, assets) =
              build_static_maps_holds sum compress type_of_name type_of_content name b es once there
                ok in
            let tag = quoted (sum b) in
            let tagged = known-IsTagged tag (c name) w.header in
            let w1 = known c name tag w in
            elim (Option-cases (asset b name)) [
              | inl plain ↦
                  as_file b w1.header there (inl plain) tagged
                    (answer_plain c m r w tag tags (assets ∙ plain))
              | inr (gz, small) ↦
                  let (stream, shorter) = asset_body b name gz small in
                  elim (serve_gzip_answers r tag gz w.header w1 open_ empty tagged) [
                    | inl (identity_, none_) ↦
                        as_file b w1.header there (inr identity_) tagged
                          (answer_unpacked c m r w tag gz tags (assets ∙ small) none_)
                    | inr (wants, (w', answer, is_answer)) ↦
                        rw (answer_packed c m r w tag gz w' tags (assets ∙ small) answer)
                          (packed b gz there (law b gz.body stream) shorter wants is_answer refl)
                  ]
            ]
      ]

  -- For a walk that visits no path twice, a compressor that the decoder reverses, and a response with
  -- nothing sent: a name outside the tree goes to the file server as it is. A file's name goes there
  -- with the file's own entity-tag and Accept-Encoding added to Vary, or, where the request offers gzip
  -- without a range and the stream is shorter, is answered here under the tag of the gzip form: 304 if
  -- the request has that tag, else a shorter body that decodes to the file, none of it for HEAD.
  pub new_static_handler-IsServed :
      (decode : Bytes → Option Bytes) (opts : List (Option StaticOption)) (es : List WalkEntry)
      (handler : Handler) (r : Request) (w : Response)
      → ((b z : Bytes) → compress b ≡ some z → decode z ≡ some b)
      → VisitsOnce es
      → is_committed w ≡ false
      → w.body ≡ []
      → new_static_handler sum compress type_of_name type_of_content path_clean file_server opts es
        ≡ (some handler, none)
      → IsServed decode (asset_name (path_clean r.path)) es r w (handler r w)
  unfolding new_static_handler
  new_static_handler-IsServed decode opts es handler r w law once open_ empty made =
      let (m, err) = build_static_maps sum compress type_of_name type_of_content es in
      elim (Option-cases err) [
        | inr (e, failed) ↦ absurd (cc (rw (new_static_handler, failed) at made))
        | inl ok ↦
            let same : static_handler path_clean file_server
                  (static_config opts (λ p. codes "no-cache")) m.etags m.gzipped
                ≡ handler =
              cc (rw (new_static_handler, ok) at made) in
            subst (λ f. IsServed decode (asset_name (path_clean r.path)) es r w (f r w)) same
              (served_by_maps decode opts es r w law once open_ empty ok)
      ]
