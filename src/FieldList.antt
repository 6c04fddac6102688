-- ===== src/FieldList.antt =====
-- fieldlist.go: the elements of a list-valued field, and the token grammar of RFC 9110.
pub mod Laws
mod Tests
use webhttp.Prelude.{
  ℕ, suc, Bool, true, false, ◌&&◌, ◌||◌, not, List, [], ◌∷◌, ◌++◌, ◌==◌, leb, within, if◌then◌else◌,
  is_nil, Bytes, codes, contains_byte, trim, join,
}
use webhttp.Header.{Header, values}

pub data ListSyntax : Type 0 where
  token_list quoted_string_list entity_tag_list : ListSyntax

abbrev is_token_list : ListSyntax → Bool
is_token_list token_list = true
is_token_list _ = false

abbrev is_quoted_string_list : ListSyntax → Bool
is_quoted_string_list quoted_string_list = true
is_quoted_string_list _ = false

-- `inQuote`; `escaped` stands for the byte that the loop's `i++` steps over
pub data Mode : Type 0 where
  outside inside escaped : Mode

abbrev is_inside : Mode → Bool
is_inside inside = true
is_inside _ = false

abbrev toggle : Mode → Mode
toggle outside = inside
toggle _ = outside

-- what one round of the loop does: `go` keeps the byte in the element, `cut` ends it at a comma
pub data Step : Type 0 where
  go : Mode → Step
  cut : Step

-- the `switch` of the loop
classify : ListSyntax → Mode → ℕ → Step
classify syntax escaped c = go inside
classify syntax m c =
    if is_quoted_string_list syntax && is_inside m && c == b'\\'
    then go escaped
    else if not (is_token_list syntax) && c == b'"'
    then go (toggle m)
    else if c == b',' && not (is_inside m)
    then cut
    else go m

-- `" \t"`
abbrev pub is_ows : ℕ → Bool
is_ows c = c == b' ' || c == b'\t'

abbrev trimmed : Bytes → Bytes
trimmed = trim is_ows

-- an element is yielded unless it is empty once trimmed
emit : Bytes → List Bytes
emit cur = let elem = trimmed cur in if is_nil elem then [] else elem ∷ []

-- the loop: `cur` is `field[start:i]`, the list is `field[i:]`
scan : ListSyntax → Mode → Bytes → Bytes → List Bytes
scan syntax m cur [] = emit cur
scan syntax m cur (c ∷ s) = elim (classify syntax m c) [
  | go m' ↦ scan syntax m' (cur ++ c ∷ []) s
  | cut ↦ emit cur ++ scan syntax outside [] s
]

unfoldable pub field_elements : ListSyntax → Bytes → List Bytes
unfolding scan emit classify
field_elements syntax field = scan syntax outside [] field

unfoldable pub field_list : Header → Bytes → ListSyntax → List Bytes
unfolding field_elements values
field_list h name syntax = field_elements syntax (join (codes ",") (values name h))

unfoldable pub token_byte : ℕ → Bool
token_byte c =
    within b'a' b'z' c
    || within b'A' b'Z' c
    || within b'0' b'9' c
    || contains_byte c (codes "!#$%&'*+-.^_`|~")

unfoldable pub token_len : Bytes → ℕ
unfolding token_byte
token_len [] = 0
token_len (c ∷ s) = let rest = token_len s in if not (token_byte c) then 0 else suc rest

unfoldable pub qdtext_byte : ℕ → Bool
qdtext_byte c =
    c == b'\t' || c == b' ' || c == 0x21 || within 0x23 0x5b c || within 0x5d 0x7e c || leb 0x80 c

unfoldable pub quoted_pair_byte : ℕ → Bool
quoted_pair_byte c = c == b'\t' || leb 0x20 c && not (c == 0x7f)
