-- ===== src/RequestPath.antt =====
-- requestpath.go: the path that the mux routes a request path as. path.Clean is a parameter.
use webhttp.Prelude.{
  Bool, false, ◌&&◌, not, [], ◌∷◌, ◌++◌, ◌==◌, if◌then◌else◌, Bytes, codes, eq_bytes,
}

-- `s[len(s)-1] == '/'`
abbrev ends_slash : Bytes → Bool
ends_slash [] = false
ends_slash (c ∷ []) = c == b'/'
ends_slash (c ∷ (d ∷ s)) = ends_slash (d ∷ s)

module _ (path_clean : Bytes → Bytes) where
  -- `clean` and `canonical`
  unfoldable pub canonical_request_path : Bytes → Bytes × Bool
  canonical_request_path [] = (codes "/", false)
  canonical_request_path (c ∷ p) =
      let rooted = if not (c == b'/') then b'/' ∷ (c ∷ p) else c ∷ p in
      let cleaned = path_clean rooted in
      let clean =
        if ends_slash rooted && not (eq_bytes cleaned (codes "/"))
        then cleaned ++ codes "/"
        else cleaned in
      (clean, eq_bytes clean (c ∷ p))
