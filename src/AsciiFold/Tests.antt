-- ===== src/AsciiFold/Tests.antt =====
-- Runs of the folding functions, and their laws at concrete texts.
use webhttp.Prelude.{true, false, ◌≡◌, refl, ◌↔◌, codes}
use webhttp.AsciiFold.{equal_ascii_fold, lower_ascii_string}
use webhttp.AsciiFold.Laws.{equal_ascii_fold_iff}

runs :
    (lower_ascii_string (codes "Example.COM") ≡ codes "example.com")
    × (equal_ascii_fold (codes "LocalHost") (codes "localhost") ≡ true)
    × (equal_ascii_fold (codes "localhos") (codes "localhost") ≡ false)
unfolding lower_ascii_string equal_ascii_fold
runs = (refl, refl, refl)

equal_ascii_fold_iff_example :
    (equal_ascii_fold (codes "GZip") (codes "gzip") ≡ true)
    ↔ (lower_ascii_string (codes "GZip") ≡ lower_ascii_string (codes "gzip"))
equal_ascii_fold_iff_example = equal_ascii_fold_iff (codes "GZip") (codes "gzip")
