-- ===== src/Static/Match.antt =====
-- When a conditional request is answered with 304.
use webhttp.Prelude.{
  ℕ, suc, Bool, false, ◌&&◌, ◌||◌, List, [], ◌∷◌, ◌≡◌, refl, ◌==◌, Bytes, codes, eq_bytes, any,
  arith, is_nil, ap, ◌∙◌,
}
use webhttp.FieldList.{entity_tag_list, field_list}
use webhttp.Header.{Header}
use webhttp.Static.{without_weak, match_loop, if_none_match}

-- "*" as the whole field
abbrev pub is_wildcard : List Bytes → Bool
is_wildcard [] = false
is_wildcard (member ∷ rest) = eq_bytes member (codes "*") && is_nil rest

-- one member alone
abbrev last_wildcard : ℕ → Bool → List Bytes → Bool
last_wildcard members wildcard [] = wildcard && members == 1
last_wildcard members wildcard (member ∷ rest) =
    last_wildcard (suc members) (eq_bytes member (codes "*")) rest

match_loop-eq :
    (etag : Bytes) (members : ℕ) (wildcard : Bool) (ms : List Bytes)
    → match_loop etag members wildcard ms
      ≡ (any (λ m. eq_bytes (without_weak m) etag) ms || last_wildcard members wildcard ms)
unfolding match_loop
match_loop-eq etag members wildcard [] = refl
match_loop-eq etag members wildcard (m ∷ ms) =
    ground (arith, match_loop-eq etag (suc members) (eq_bytes m (codes "*")) ms)

last_wildcard_late :
    (n : ℕ) (wildcard : Bool) (ms : List Bytes) → last_wildcard (suc (suc n)) wildcard ms ≡ false
last_wildcard_late n wildcard [] = ground arith
last_wildcard_late n wildcard (m ∷ ms) = last_wildcard_late (suc n) (eq_bytes m (codes "*")) ms

last_wildcard-eq : (ms : List Bytes) → last_wildcard 0 false ms ≡ is_wildcard ms
last_wildcard-eq [] = refl
last_wildcard-eq (m ∷ []) = ground arith
last_wildcard-eq (m ∷ (n ∷ ms)) = last_wildcard_late 0 (eq_bytes n (codes "*")) ms ∙ ground arith

-- If-None-Match holds exactly if "*" is the whole field, or a member is the entity-tag or its weak form.
pub if_none_match-eq :
    (h : Header) (etag : Bytes)
    → let members = field_list h (codes "If-None-Match") entity_tag_list in
      if_none_match h etag
      ≡ (any (λ m. eq_bytes (without_weak m) etag) members || is_wildcard members)
unfolding if_none_match
if_none_match-eq h etag =
    let members = field_list h (codes "If-None-Match") entity_tag_list in
    match_loop-eq etag 0 false members
    ∙ ap (λ b. any (λ m. eq_bytes (without_weak m) etag) members || b) (last_wildcard-eq members)
