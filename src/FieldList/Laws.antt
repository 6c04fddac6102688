-- ===== src/FieldList/Laws.antt =====
-- What the elements of a field are, whatever its bytes.
use webhttp.Prelude.{
  ℕ, not, List, [], ◌∷◌, ◌++◌, map, ◌≡◌, ◌≢◌, refl, ap, ◌∙◌, is_nil, Bytes, codes, split_byte,
  split_byte-ne-nil, add_head, keep, All, All-append, append-nil, append_assoc, arith, trim_idem,
  join,
}
use webhttp.Header.{Header, values}
use webhttp.FieldList.{
  ListSyntax, token_list, Mode, outside, go, cut, classify, is_ows, trimmed, emit, scan,
  field_elements, field_list,
}

-- An element as a caller sees it: not empty, and with no blank at either end.
abbrev pub IsElement : Bytes → Type 0
IsElement e = (e ≢ []) × (trimmed e ≡ e)

emit-IsElement : (cur : Bytes) → All IsElement (emit cur)
unfolding emit
emit-IsElement cur = ground (arith, trim_idem is_ows cur)

scan-IsElement :
    (syntax : ListSyntax) (m : Mode) (cur s : Bytes) → All IsElement (scan syntax m cur s)
unfolding scan
scan-IsElement syntax m cur [] = emit-IsElement cur
scan-IsElement syntax m cur (c ∷ s) =
    elim (classify syntax m c)
      as (λ x. All IsElement (elim x as (λ _. List Bytes) [
        | go m' ↦ scan syntax m' (cur ++ c ∷ []) s
        | cut ↦ emit cur ++ scan syntax outside [] s
      ])) [
        | go m' ↦ scan-IsElement syntax m' (cur ++ c ∷ []) s
        | cut ↦
            All-append IsElement (emit cur) _ (emit-IsElement cur)
              (scan-IsElement syntax outside [] s)
      ]

-- Every element of every list syntax is non-empty and trimmed.
pub field_list-IsElement :
    (h : Header) (name : Bytes) (syntax : ListSyntax) → All IsElement (field_list h name syntax)
unfolding field_list field_elements
field_list-IsElement h name syntax =
    scan-IsElement syntax outside [] (join (codes ",") (values name h))

-- the pieces between the commas, the first behind what was read already
abbrev prefix_head : Bytes → List Bytes → List Bytes
prefix_head cur [] = cur ∷ []
prefix_head cur (p ∷ ps) = (cur ++ p) ∷ ps

abbrev pub non_empty : List Bytes → List Bytes
non_empty = keep (λ e. not (is_nil e))

prefix_head-nil : (ps : List Bytes) → ps ≢ [] → prefix_head [] ps ≡ ps
prefix_head-nil [] h = absurd (h refl)
prefix_head-nil (p ∷ ps) h = refl

prefix_head-add_head :
    (cur : Bytes) (c : ℕ) (ps : List Bytes)
    → prefix_head (cur ++ c ∷ []) ps ≡ prefix_head cur (add_head c ps)
prefix_head-add_head cur c [] = refl
prefix_head-add_head cur c (p ∷ ps) = rw append_assoc

scan_tokens :
    (cur s : Bytes)
    → scan token_list outside cur s ≡ non_empty (map trimmed (prefix_head cur (split_byte b',' s)))
unfolding scan classify emit
scan_tokens cur [] = rw append-nil (ground arith)
scan_tokens cur (c ∷ s) = ground (
  arith,
  scan_tokens [] s,
  scan_tokens (cur ++ c ∷ []) s,
  prefix_head-nil (split_byte b',' s) (split_byte-ne-nil b',' s),
  prefix_head-add_head cur c (split_byte b',' s),
  append-nil cur,
)

-- A list with no quoting is its comma-separated pieces, trimmed, without the empty ones.
pub field_elements-eq-split :
    (field : Bytes)
    → field_elements token_list field ≡ non_empty (map trimmed (split_byte b',' field))
unfolding field_elements
field_elements-eq-split field =
    scan_tokens [] field
    ∙ ap (λ ps. non_empty (map trimmed ps)) (prefix_head-nil _ (split_byte-ne-nil b',' field))

scan-append :
    (cur s t : Bytes)
    → scan token_list outside cur (s ++ b',' ∷ t)
      ≡ scan token_list outside cur s ++ scan token_list outside [] t
unfolding scan classify
scan-append cur [] t = refl
scan-append cur (c ∷ s) t = ground (
  arith,
  scan-append (cur ++ c ∷ []) s t,
  scan-append [] s t,
  append_assoc (emit cur) (scan token_list outside [] s) (scan token_list outside [] t),
)

-- Joining two field lines with a comma puts their elements one behind the other.
pub field_elements-append :
    (s t : Bytes)
    → field_elements token_list (s ++ b',' ∷ t)
      ≡ field_elements token_list s ++ field_elements token_list t
unfolding field_elements
field_elements-append s t = scan-append [] s t
