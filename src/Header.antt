-- ===== src/Header.antt =====
-- Go's http.Header: a map from canonical field names to the values of their lines, with the
-- operations that the code calls. The standard library's, so no file of the repository holds it.
pub mod Laws
use webhttp.Prelude.{Bool, List, [], ◌∷◌, ◌++◌, Bytes, eq_bytes, if◌then◌else◌, not}

abbrev pub Header : Type 0
Header = List (Bytes × List Bytes)

-- `h.Values(name)`, also `h[name]` where a missing name is no value
unfoldable pub values : Bytes → Header → List Bytes
values k [] = []
values k ((j, v) ∷ h) = if eq_bytes j k then v else values k h

abbrev first_or_empty : List Bytes → Bytes
first_or_empty [] = []
first_or_empty (v ∷ vs) = v

-- `h.Get(name)`
unfoldable pub get : Bytes → Header → Bytes
unfolding values
get k h = first_or_empty (values k h)

-- `h[name] = vs`
unfoldable pub put : Bytes → List Bytes → Header → Header
put k vs [] = (k, vs) ∷ []
put k vs ((j, v) ∷ h) = if eq_bytes j k then (k, vs) ∷ h else (j, v) ∷ put k vs h

-- `h.Set(name, v)`
unfoldable pub set : Bytes → Bytes → Header → Header
unfolding put
set k v h = put k (v ∷ []) h

-- `h.Add(name, v)`
unfoldable pub add : Bytes → Bytes → Header → Header
unfolding put values
add k v h = put k (values k h ++ v ∷ []) h

-- `h.Del(name)`
unfoldable pub del : Bytes → Header → Header
del k [] = []
del k ((j, v) ∷ h) = if eq_bytes j k then del k h else (j, v) ∷ del k h
