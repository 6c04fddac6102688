-- ===== src/Csp.antt =====
-- csp.go: the hashes of a page's inline scripts and styles. The code's index into the page is the
-- text from there on, and an index that a search returns is an offset into that text.
pub mod First
pub mod Attrs
pub mod Spans
mod Tests
use webhttp.Prelude.{
  ℕ, zero, suc, ◌+◌, Bool, true, false, ◌&&◌, ◌||◌, not, List, [], ◌∷◌, ◌++◌, Option, none, some,
  ◌==◌, if◌then◌else◌, length, take, drop, Bytes, codes,
}
use mathlib.Core.List.{map}
use webhttp.AsciiFold.{lower_ascii}

abbrev pub is_ascii_space : ℕ → Bool
is_ascii_space c = c == 0x20 || c == 0x09 || c == 0x0a || c == 0x0d || c == 0x0c

abbrev pub is_tag_name_boundary : ℕ → Bool
is_tag_name_boundary c = c == b'>' || c == b'/' || is_ascii_space c

unfoldable pub has_fold_prefix : Bytes → Bytes → Bool
unfolding lower_ascii
has_fold_prefix s [] = true
has_fold_prefix [] (n ∷ ns) = false
has_fold_prefix (c ∷ s) (n ∷ ns) = lower_ascii c == n && has_fold_prefix s ns

abbrev pub shift : ℕ → Option ℕ → Option ℕ
shift n none = none
shift n (some k) = some (n + k)

unfoldable pub index_fold_ascii : Bytes → Bytes → Option ℕ
unfolding has_fold_prefix
index_fold_ascii [] needle = if has_fold_prefix [] needle then some 0 else none
index_fold_ascii (c ∷ s) needle =
    let rest = shift 1 (index_fold_ascii s needle) in
    if has_fold_prefix (c ∷ s) needle then some 0 else rest

-- what follows a tag's name: a boundary, or the end of the page
abbrev pub ends_name : Bool → Bytes → Bool
ends_name at_end [] = at_end
ends_name at_end (c ∷ s) = is_tag_name_boundary c

-- The loop that findElementOpen and findElementClose share; `at_end` says whether the end of the page
-- ends a name. Each round goes past a tag, so the fuel of `find_element` is enough.
unfoldable pub find_loop : ℕ → Bool → Bytes → Bytes → Option ℕ
unfolding index_fold_ascii
find_loop zero at_end tag s = none
find_loop (suc fuel) at_end tag s = elim (index_fold_ascii s tag) [
  | none ↦ none
  | some k ↦
      let after = drop (k + length tag) s in
      let more = shift (k + length tag) (find_loop fuel at_end tag after) in
      if ends_name at_end after then some k else more
]

unfoldable pub find_element_open : Bytes → Bytes → Option ℕ
unfolding find_loop
find_element_open s tag = find_loop (suc (length s)) true tag s

unfoldable pub find_element_close : Bytes → Bytes → Option ℕ
unfolding find_loop
find_element_close s tag = find_loop (suc (length s)) false tag s

abbrev pub is_quote : ℕ → Bool
is_quote c = c == b'"' || c == b'\''

-- the quote that is open, if any, and the rest of the tag
unfoldable pub open_tag_end : Option ℕ → Bytes → Option ℕ
open_tag_end quote [] = none
open_tag_end (some q) (c ∷ s) = shift 1 (open_tag_end (if c == q then none else some q) s)
open_tag_end none (c ∷ s) =
    let inside = shift 1 (open_tag_end (if is_quote c then some c else none) s) in
    if not (is_quote c) && c == b'>' then some 0 else inside

-- after the name: optional space and "="
starts_equals : Bytes → Bool
starts_equals [] = false
starts_equals (c ∷ s) = let rest = starts_equals s in if is_ascii_space c then rest else c == b'='

unfoldable pub matches_src_here : Bytes → Bool
unfolding starts_equals has_fold_prefix
matches_src_here s = has_fold_prefix s (codes "src") && starts_equals (drop 3 s)

-- the loop of hasSrcAttr: the open quote and whether an attribute's name may start here
unfoldable pub src_loop : Option ℕ → Bool → Bytes → Bool
unfolding matches_src_here
src_loop quote at_name [] = false
src_loop (some q) at_name (c ∷ s) = src_loop (if c == q then none else some q) at_name s
src_loop none at_name (c ∷ s) =
    let here = not (is_quote c) && not (is_ascii_space c) && at_name && matches_src_here (c ∷ s) in
    let rest =
      src_loop (if is_quote c then some c else none) (not (is_quote c) && is_ascii_space c) s in
    here || rest

unfoldable pub has_src_attr : Bytes → Bool
unfolding src_loop
has_src_attr attrs = src_loop none true attrs

-- the first element of a page: its attributes, its content, and the page behind its closing tag's name
pub record Element : Type 0 where
  pub attrs : Bytes
  pub content : Bytes
  pub rest : Bytes

unfoldable pub next_element : Bytes → Bytes → Option Element
unfolding find_element_open find_element_close open_tag_end
next_element tag html = elim (find_element_open html (b'<' ∷ tag)) [
  | none ↦ none
  | some o ↦
      let tail = drop (o + length (b'<' ∷ tag)) html in
      elim (open_tag_end none tail) [
        | none ↦ none
        | some gt ↦
            let inner = drop (suc gt) tail in
            let close = b'<' ∷ (b'/' ∷ tag) in
            elim (find_element_close inner close) [
              | none ↦ none
              | some k ↦ some (record {
                attrs = take gt tail;
                content = take k inner;
                rest = drop (k + length close) inner;
              })
            ]
      ]
]

-- The loop of inlineElementHashes, up to the hash: the contents in order, `none` where the fuel ran out.
unfoldable pub contents : ℕ → Bytes → (Bytes → Bool) → Bytes → Option (List Bytes)
unfolding next_element
contents zero tag skip html = none
contents (suc fuel) tag skip html = elim (next_element tag html) [
  | none ↦ some []
  | some e ↦ elim (contents fuel tag skip e.rest) [
    | none ↦ none
    | some more ↦ some (if skip e.attrs then more else e.content ∷ more)
  ]
]

abbrev pub none_as_empty : Option (List Bytes) → List Bytes
none_as_empty none = []
none_as_empty (some l) = l

-- `sha256` is the digest in base64, of crypto/sha256 and encoding/base64.
module _ (sha256 : Bytes → Bytes) where
  unfoldable pub csp_hash : Bytes → Bytes
  csp_hash content = codes "'sha256-" ++ (sha256 content ++ codes "'")

  unfoldable pub inline_element_hashes : Bytes → Bytes → (Bytes → Bool) → List Bytes
  unfolding contents
  inline_element_hashes html tag skip =
      map csp_hash (none_as_empty (contents (suc (length html)) tag skip html))

  unfoldable pub inline_script_hashes : Bytes → List Bytes
  unfolding has_src_attr
  inline_script_hashes html = inline_element_hashes html (codes "script") has_src_attr

  unfoldable pub inline_style_hashes : Bytes → List Bytes
  inline_style_hashes html = inline_element_hashes html (codes "style") (λ attrs. false)
