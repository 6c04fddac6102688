-- ===== src/Header/Laws.antt =====
-- A read of a field after a write, a set, an add and a removal.
use webhttp.Prelude.{
  List, [], ◌∷◌, ◌++◌, ◌≡◌, refl, Bytes, eq_bytes, eq_bytes_iff, if◌then◌else◌, arith,
}
use webhttp.Header.{Header, values, put, set, add, del}

pub values-put :
    (k j : Bytes) (vs : List Bytes) (h : Header)
    → values j (put k vs h) ≡ (if eq_bytes k j then vs else values j h)
unfolding values put
values-put k j vs [] = refl
values-put k j vs ((i, w) ∷ h) =
    ground (arith, eq_bytes_iff k j, eq_bytes_iff i k, eq_bytes_iff i j, values-put k j vs h)

pub values-set :
    (k j v : Bytes) (h : Header)
    → values j (set k v h) ≡ (if eq_bytes k j then v ∷ [] else values j h)
unfolding set
values-set k j v h = values-put k j (v ∷ []) h

pub values-add :
    (k j v : Bytes) (h : Header)
    → values j (add k v h) ≡ (if eq_bytes k j then values k h ++ v ∷ [] else values j h)
unfolding add
values-add k j v h = values-put k j (values k h ++ v ∷ []) h

pub values-del :
    (k j : Bytes) (h : Header) → values j (del k h) ≡ (if eq_bytes k j then [] else values j h)
unfolding values del
values-del k j [] = ground arith
values-del k j ((i, w) ∷ h) =
    ground (arith, eq_bytes_iff k j, eq_bytes_iff i k, eq_bytes_iff i j, values-del k j h)
