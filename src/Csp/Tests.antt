-- ===== src/Csp/Tests.antt =====
-- Runs of the scanner, and its laws at concrete pages.
use webhttp.Prelude.{
  List, Bytes, suc, length, map, keep, not, [], ◌∷◌, some, ◌≡◌, refl, codes, true, false,
}
use webhttp.AsciiFold.{lower_ascii}
use webhttp.Csp.{
  inline_script_hashes, inline_style_hashes, csp_hash, has_src_attr, inline_element_hashes, Element,
  contents, find_element_open, find_element_close,
}
use webhttp.Csp.First.{first_at, find_element-eq-first}
use webhttp.Csp.Spans.{AreElements, contents-AreElements}

script_runs :
    (inline_script_hashes
        (λ c. c)
        (codes
          "<p><scripts><SCRIPT a='>' data-src=x>f()</scripts></Script ><script src = x>g</script>")
      ≡ codes "'sha256-f()</scripts>'" ∷ [])
    × (inline_style_hashes (λ c. c) (codes "<style media=\"a>b\">x</style/><style>y</style")
        ≡ codes "'sha256-x'" ∷ [])
    × (has_src_attr (codes " a=\"src=\" srcset=x") ≡ false)
    × (has_src_attr (codes " a=\"src=\" SRC\n=x") ≡ true)
unfolding inline_script_hashes inline_style_hashes has_src_attr lower_ascii inline_element_hashes
    csp_hash
script_runs = (refl, refl, refl, refl)

abbrev name_of_script : Bytes
name_of_script = codes "script"

find_element-eq-first_example :
    (find_element_open (codes "<scripts><SCRIPT>") (b'<' ∷ name_of_script)
      ≡ first_at true (b'<' ∷ name_of_script) (codes "<scripts><SCRIPT>"))
    × (find_element_close (codes "<scripts><SCRIPT>") (b'<' ∷ (b'/' ∷ name_of_script))
        ≡ first_at false (b'<' ∷ (b'/' ∷ name_of_script)) (codes "<scripts><SCRIPT>"))
find_element-eq-first_example =
    find_element-eq-first name_of_script refl (codes "<scripts><SCRIPT>")

contents-AreElements_example :
    (es : List Element) × AreElements name_of_script refl (codes "<script>f()</script>") es
    × (contents
          (suc (length (codes "<script>f()</script>")))
          name_of_script
          has_src_attr
          (codes "<script>f()</script>")
        ≡ some (map (λ e. e.content) (keep (λ e. not (has_src_attr e.attrs)) es)))
contents-AreElements_example =
    contents-AreElements name_of_script refl has_src_attr (codes "<script>f()</script>")
