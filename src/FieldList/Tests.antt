-- ===== src/FieldList/Tests.antt =====
-- Runs of the list scanner, and its laws at concrete fields.
use webhttp.Prelude.{[], ◌∷◌, ◌≡◌, refl, codes, map, split_byte, All}
use webhttp.Header.{Header}
use webhttp.FieldList.{
  token_list, quoted_string_list, entity_tag_list, field_elements, field_list, trimmed,
}
use webhttp.FieldList.Laws.{IsElement, non_empty, field_list-IsElement, field_elements-eq-split}

runs :
    (field_elements token_list (codes " a ,, b\t,\"c,d")
      ≡ codes "a" ∷ codes "b" ∷ codes "\"c" ∷ codes "d" ∷ [])
    × (field_elements quoted_string_list (codes "a=\"x\\\",y\", b")
        ≡ codes "a=\"x\\\",y\"" ∷ codes "b" ∷ [])
    × (field_elements entity_tag_list (codes "\"a\\\", W/\"b,c\"")
        ≡ codes "\"a\\\"" ∷ codes "W/\"b,c\"" ∷ [])
unfolding field_elements
runs = (refl, refl, refl)

abbrev quoted_fields : Header
quoted_fields = (codes "Forwarded", codes "for=\"a,b\" ;, " ∷ codes " for=c" ∷ []) ∷ []

field_list-IsElement_example :
    All IsElement (field_list quoted_fields (codes "Forwarded") quoted_string_list)
field_list-IsElement_example =
    field_list-IsElement quoted_fields (codes "Forwarded") quoted_string_list

field_elements-eq-split_example :
    field_elements token_list (codes "a, ,b")
    ≡ non_empty (map trimmed (split_byte b',' (codes "a, ,b")))
field_elements-eq-split_example = field_elements-eq-split (codes "a, ,b")
