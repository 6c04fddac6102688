-- ===== src/Static/Build.antt =====
-- What the maps of a walk hold of a file.
use webhttp.Prelude.{
  true, false, List, [], ◌∷◌, Option, none, some, ◌≡◌, refl, sym, ap, ◌∙◌, if◌then◌else◌, Bytes,
  eq_bytes, eq_bytes_iff, Bool-cases, Option-cases, inl, inr,
}
use webhttp.Static.{GzAsset, lookup}
use webhttp.Static.Maps.{
  WalkEntry, walk_failed, read_failed, directory, file, StaticMaps, no_maps, quoted, gzip_asset,
  add_file, walk, build_static_maps,
}

-- what the file of a name holds
abbrev pub content_of : Bytes → List WalkEntry → Option Bytes
content_of name [] = none
content_of name (file p b ∷ es) = if eq_bytes p name then some b else content_of name es
content_of name (_ ∷ es) = content_of name es

-- No path is visited twice.
abbrev pub VisitsOnce : List WalkEntry → Type 0
VisitsOnce [] = Unit {0}
VisitsOnce (file p b ∷ es) = (content_of p es ≡ none) × VisitsOnce es
VisitsOnce (_ ∷ es) = VisitsOnce es

module _ (sum : Bytes → Bytes) (compress : Bytes → Option Bytes)
    (type_of_name type_of_content : Bytes → Bytes) where
  abbrev asset : Bytes → Bytes → Option GzAsset
  asset b name = gzip_asset sum compress type_of_name type_of_content b name

  add_file_other :
      (name p b : Bytes) (m : StaticMaps)
      → eq_bytes p name ≡ false
      → let m' = add_file sum compress type_of_name type_of_content p b m in
        (lookup name m'.etags ≡ lookup name m.etags)
        × (lookup name m'.gzipped ≡ lookup name m.gzipped)
  add_file_other name p b m h = elim (Option-cases (asset b p)) [
    | inl plain ↦ rw (h, plain) (refl, refl)
    | inr (gz, packed) ↦ rw (h, packed, h) (refl, refl)
  ]

  add_file_self :
      (p b : Bytes) (m : StaticMaps)
      → lookup p m.gzipped ≡ none
      → let m' = add_file sum compress type_of_name type_of_content p b m in
        (lookup p m'.etags ≡ some (quoted (sum b))) × (lookup p m'.gzipped ≡ asset b p)
  add_file_self p b m new =
      let same : eq_bytes p p ≡ true = (eq_bytes_iff p p).1 refl in
      elim (Option-cases (asset b p)) [
        | inl plain ↦ rw (same, plain) (refl, new)
        | inr (gz, packed) ↦ rw (same, packed, same) (refl, refl)
      ]

  walk_other :
      (name : Bytes) (es : List WalkEntry) (m : StaticMaps)
      → content_of name es ≡ none
      → let m' = (walk sum compress type_of_name type_of_content es m).0 in
        (lookup name m'.etags ≡ lookup name m.etags)
        × (lookup name m'.gzipped ≡ lookup name m.gzipped)
  unfolding walk
  walk_other name [] m h = (refl, refl)
  walk_other name (walk_failed e ∷ es) m h = (refl, refl)
  walk_other name (read_failed e ∷ es) m h = (refl, refl)
  walk_other name (directory ∷ es) m h = walk_other name es m h
  walk_other name (file p b ∷ es) m h = elim (Bool-cases (eq_bytes p name)) [
    | inl same ↦ absurd (cc (rw same at h))
    | inr other ↦
        let m' = add_file sum compress type_of_name type_of_content p b m in
        let (tags, assets) = walk_other name es m' (rw other at h) in
        let (tags', assets') = add_file_other name p b m other in (tags ∙ tags', assets ∙ assets')
  ]

  walk_holds :
      (name b : Bytes) (es : List WalkEntry) (m : StaticMaps)
      → VisitsOnce es
      → content_of name es ≡ some b
      → lookup name m.gzipped ≡ none
      → let (m', err) = walk sum compress type_of_name type_of_content es m in
        err ≡ none
        → (lookup name m'.etags ≡ some (quoted (sum b))) × (lookup name m'.gzipped ≡ asset b name)
  unfolding walk
  walk_holds name b [] m once h new ok = cc
  walk_holds name b (walk_failed e ∷ es) m once h new ok = cc
  walk_holds name b (read_failed e ∷ es) m once h new ok = cc
  walk_holds name b (directory ∷ es) m once h new ok = walk_holds name b es m once h new ok
  walk_holds name b (file p c ∷ es) m (alone, once) h new ok =
      let m' = add_file sum compress type_of_name type_of_content p c m in
      elim (Bool-cases (eq_bytes p name)) [
        | inr other ↦
            let (tags, assets) = add_file_other name p c m other in
            walk_holds name b es m' once (rw other at h) (assets ∙ new) ok
        | inl same ↦
            let e : p ≡ name = (eq_bytes_iff p name).0 same in
            let content : c ≡ b = cc (rw same at h) in
            let (tags, assets) =
              walk_other name es m' (ap (λ k. content_of k es) (sym e) ∙ alone) in
            let (tags', assets') = add_file_self p c m (ap (λ k. lookup k m.gzipped) e ∙ new) in
            (
              tags
                  ∙ ap (λ k. lookup k m'.etags) (sym e)
                  ∙ tags'
                  ∙ ap (λ x. some (quoted (sum x))) content,
              assets
                  ∙ ap (λ k. lookup k m'.gzipped) (sym e)
                  ∙ assets'
                  ∙ ap (λ x. asset x p) content
                  ∙ ap (λ k. asset b k) e,
            )
      ]

  -- After a walk that ends without an error and visits no path twice: what the maps have of a name.
  pub build_static_maps_holds :
      (name b : Bytes) (es : List WalkEntry)
      → VisitsOnce es
      → content_of name es ≡ some b
      → let (m, err) = build_static_maps sum compress type_of_name type_of_content es in
        err ≡ none
        → (lookup name m.etags ≡ some (quoted (sum b))) × (lookup name m.gzipped ≡ asset b name)
  unfolding build_static_maps
  build_static_maps_holds name b es once h ok = walk_holds name b es no_maps once h refl ok

  pub build_static_maps_lacks :
      (name : Bytes) (es : List WalkEntry)
      → content_of name es ≡ none
      → let m = (build_static_maps sum compress type_of_name type_of_content es).0 in
        (lookup name m.etags ≡ none) × (lookup name m.gzipped ≡ none)
  unfolding build_static_maps
  build_static_maps_lacks name es h = walk_other name es no_maps h
