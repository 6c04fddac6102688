-- ===== src/Methods.antt =====
-- prelude.go: the method guard and its Allow header, and the walk to the server's own writer.
pub mod Allow
mod Tests
use webhttp.Prelude.{
  ℕ, zero, suc, Bool, true, false, ◌||◌, not, List, [], ◌∷◌, ◌++◌, Option, none, some,
  if◌then◌else◌, is_nil, Bytes, codes, eq_bytes, has, join,
}
use webhttp.Header.{set}
use webhttp.Http.{Request, Response}
use webhttp.Json.{ErrorResponse, write_error}

-- the loop over the methods, `uniq` the ones kept so far
unfoldable pub unique_methods : List Bytes → List Bytes → List Bytes
unique_methods uniq [] = uniq
unique_methods uniq (m ∷ ms) =
    unique_methods (if is_nil m || has m uniq then uniq else uniq ++ m ∷ []) ms

unfoldable pub allow_value : List Bytes → Bytes
unfolding unique_methods
allow_value (m ∷ []) = m
allow_value allowed = join (codes ", ") (unique_methods [] allowed)

unfoldable pub set_allow : List Bytes → Response → Response
unfolding allow_value
set_allow allowed w = record w { header = set (codes "Allow") (allow_value allowed) w.header }

module _ (encode : ErrorResponse → Option Bytes) where
  unfoldable pub method_not_allowed : Request → List Bytes → Response → Response
  unfolding set_allow
  method_not_allowed r allowed w =
      write_error encode r 405 (codes "method_not_allowed") (codes "method not allowed")
        (set_allow allowed w)

  unfoldable pub require_method : Bytes → Request → Response → Bool × Response
  unfolding method_not_allowed
  require_method method r w =
      if not (eq_bytes r.method method)
      then (false, method_not_allowed r (method ∷ []) w)
      else (true, w)

abbrev pub unwrap_walk_limit : ℕ
unwrap_walk_limit = 16

-- Over the writers `W` of a program: `unwrap` is `none` for a writer with no Unwrap method, and
-- `some none` where that returns nil.
module _ {W : Type 0} (unwrap : W → Option (Option W)) where
  unfoldable pub walk_writers : ℕ → W → W
  walk_writers zero w = w
  walk_writers (suc n) w = elim (unwrap w) [
    | none ↦ w
    | some inner ↦ elim inner [ none ↦ w | some w' ↦ walk_writers n w' ]
  ]

  unfoldable pub base_response_writer : W → W
  unfolding walk_writers
  base_response_writer w = walk_writers unwrap_walk_limit w

  -- `max_bytes_reader` is http.MaxBytesReader, given the server's writer, a body and the limit.
  unfoldable limit_body : {B : Type 0} → (W → B → ℕ → B) → W → B → ℕ → B
  unfolding base_response_writer
  limit_body max_bytes_reader w body max_bytes =
      max_bytes_reader (base_response_writer w) body max_bytes
