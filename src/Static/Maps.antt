-- ===== src/Static/Maps.antt =====
-- static.go: the walk of the file system, which reads each file once, and the handler made of it. What
-- fs.WalkDir reports is a list of entries; the hash, the compressor and the content types are
-- parameters.
use webhttp.Prelude.{
  ℕ, not, List, [], ◌∷◌, ◌++◌, Option, none, some, ltb, if◌then◌else◌, is_nil, length, Bytes, codes,
}
use webhttp.Http.{Handler}
use webhttp.Static.{GzAsset, static_handler}

pub data WalkEntry : Type 0 where
  -- an error of the walk, and of reading a file
  walk_failed read_failed : ℕ → WalkEntry
  directory : WalkEntry
  -- its path and what it holds
  file : Bytes → Bytes → WalkEntry

pub record StaticMaps : Type 0 where
  pub etags : List (Bytes × Bytes)
  pub gzipped : List (Bytes × GzAsset)

abbrev pub no_maps : StaticMaps
no_maps = record { etags = []; gzipped = [] }

-- a quoted hash in hexadecimal digits
abbrev pub quoted : Bytes → Bytes
quoted hex = b'"' ∷ (hex ++ b'"' ∷ [])

pub data StaticOption : Type 0 where
  with_static_cache_control : Option (Bytes → Bytes) → StaticOption

abbrev apply_option : StaticOption → (Bytes → Bytes) → Bytes → Bytes
apply_option (with_static_cache_control none) c = c
apply_option (with_static_cache_control (some fn)) c = fn

abbrev pub static_config : List (Option StaticOption) → (Bytes → Bytes) → Bytes → Bytes
static_config [] c = c
static_config (none ∷ opts) c = static_config opts c
static_config (some o ∷ opts) c = static_config opts (apply_option o c)

-- `sum` is the hexadecimal SHA-256, `compress` the closed stream at the best level, `type_of_name`
-- mime.TypeByExtension of path.Ext, and `type_of_content` http.DetectContentType.
module _ (sum : Bytes → Bytes) (compress : Bytes → Option Bytes)
    (type_of_name type_of_content : Bytes → Bytes) where
  unfoldable pub gzip_asset : Bytes → Bytes → Option GzAsset
  gzip_asset b name = elim (compress b) [
    | none ↦ none
    | some z ↦
        if not (ltb (length z) (length b))
        then none
        else let ct = type_of_name name in
          some (record { content_type = if is_nil ct then type_of_content b else ct; body = z })
  ]

  abbrev add_asset : Bytes → Option GzAsset → List (Bytes × GzAsset) → List (Bytes × GzAsset)
  add_asset p none m = m
  add_asset p (some gz) m = (p, gz) ∷ m

  abbrev pub add_file : Bytes → Bytes → StaticMaps → StaticMaps
  add_file p b m = record {
    etags = (p, quoted (sum b)) ∷ m.etags;
    gzipped = add_asset p (gzip_asset b p) m.gzipped;
  }

  -- the walk with its callback: the maps so far, and the error that has ended it
  unfoldable pub walk : List WalkEntry → StaticMaps → StaticMaps × Option ℕ
  walk [] m = (m, none)
  walk (walk_failed e ∷ es) m = (m, some e)
  walk (read_failed e ∷ es) m = (m, some e)
  walk (directory ∷ es) m = walk es m
  walk (file p b ∷ es) m = walk es (add_file p b m)

  unfoldable pub build_static_maps : List WalkEntry → StaticMaps × Option ℕ
  unfolding walk
  build_static_maps es = walk es no_maps

  -- StaticHandler's two results: the handler, or the error
  unfoldable pub new_static_handler :
      (Bytes → Bytes)
      → Handler
      → List (Option StaticOption)
      → List WalkEntry
      → Option Handler × Option ℕ
  unfolding build_static_maps
  new_static_handler path_clean file_server opts es =
      let c = static_config opts (λ p. codes "no-cache") in
      let (m, err) = build_static_maps es in
      elim err [
        | some e ↦ (none, some e)
        | none ↦ (some (static_handler path_clean file_server c m.etags m.gzipped), none)
      ]
