-- ===== src/Methods/Tests.antt =====
-- The Allow value of a route with a repeated and an empty method.
use webhttp.Prelude.{true, ◌&&◌, not, List, [], ◌∷◌, ◌≡◌, refl, is_nil, Bytes, codes, has, join}
use webhttp.Methods.{allow_value}
use webhttp.Methods.Allow.{distinct, allow_value-lists}

allow_value_runs :
    allow_value (codes "GET" ∷ ([] ∷ (codes "POST" ∷ (codes "GET" ∷ [])))) ≡ codes "GET, POST"
unfolding allow_value
allow_value_runs = refl

allow_value-lists_example :
    (us : List Bytes) × (allow_value (codes "GET" ∷ ([] ∷ (codes "POST" ∷ (codes "GET" ∷ []))))
      ≡ join (codes ", ") us)
    × (distinct us ≡ true)
    × ((m : Bytes)
        → has m us
          ≡ (not (is_nil m) && has m (codes "GET" ∷ ([] ∷ (codes "POST" ∷ (codes "GET" ∷ []))))))
allow_value-lists_example = allow_value-lists (codes "GET") [] (codes "POST" ∷ (codes "GET" ∷ []))
