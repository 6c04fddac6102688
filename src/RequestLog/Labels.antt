-- ===== src/RequestLog/Labels.antt =====
-- reqlog.go: the labels of a route metric, which have few values whatever the requests are.
use webhttp.Prelude.{
  ℕ, true, List, [], ◌∷◌, none, some, ◌≡◌, ◌⊎◌, inl, inr, refl, if◌then◌else◌, is_nil, Bytes, codes,
  cut_byte, has, eq_bytes_iff, arith, Bool-cases, eq_bytes,
}
use webhttp.Http.{Request}

-- what a metric hook is told of a request
pub record RequestMetric : Type 0 where
  pub method : Bytes
  pub path : Bytes
  pub status : ℕ
  pub latency : ℕ

abbrev pub metric_label_unmatched : Bytes
metric_label_unmatched = codes "unmatched"

abbrev pub metric_label_other : Bytes
metric_label_other = codes "other"

abbrev pub known_methods : List Bytes
known_methods =
    codes "GET"
    ∷ (codes "HEAD"
        ∷ (codes "POST"
            ∷ (codes "PUT"
                ∷ (codes "DELETE"
                    ∷ (codes "CONNECT"
                        ∷ (codes "OPTIONS" ∷ (codes "TRACE" ∷ (codes "PATCH" ∷ []))))))))

unfoldable pub route_metric_method : Bytes → Bytes
route_metric_method m = if has m known_methods then m else metric_label_other

unfoldable pub route_metric_path : Request → Bytes
route_metric_path r =
    if is_nil r.pattern
    then metric_label_unmatched
    else elim (cut_byte b' ' r.pattern) [ some (_, template) ↦ template | none ↦ r.pattern ]

unfoldable pub route_metric_labels : Request → Bytes × Bytes
unfolding route_metric_method route_metric_path
route_metric_labels r = (route_metric_method r.method, route_metric_path r)

-- The labels that a server with these patterns can produce.
abbrev template_of : Bytes → Bytes
template_of pattern = elim (cut_byte b' ' pattern) [
  | some (_, template) ↦ template
  | none ↦ pattern
]

abbrev pub path_labels : List Bytes → List Bytes
path_labels [] = metric_label_unmatched ∷ []
path_labels (pattern ∷ patterns) = template_of pattern ∷ path_labels patterns

path_labels-unmatched :
    (patterns : List Bytes) → has metric_label_unmatched (path_labels patterns) ≡ true
path_labels-unmatched [] = refl
path_labels-unmatched (p ∷ ps) = ground (arith, path_labels-unmatched ps)

path_labels-template :
    (p : Bytes) (patterns : List Bytes)
    → has p patterns ≡ true
    → has (template_of p) (path_labels patterns) ≡ true
path_labels-template p [] h = cc
path_labels-template p (q ∷ ps) h = elim (Bool-cases (eq_bytes q p)) [
  | inl same ↦
      let e = (eq_bytes_iff q p).0 same in
      let self = (eq_bytes_iff (template_of p) (template_of p)).1 refl in rw (e, self) refl
  | inr other ↦ let rest = path_labels-template p ps (rw other at h) in ground (arith, rest)
]

has-cons : (k m t : Bytes) (ts : List Bytes) → k ≡ m → has m ts ≡ true → has k (t ∷ ts) ≡ true
has-cons k m t ts e h = rw e (ground arith)

known_or_other :
    (m other : Bytes) (ks : List Bytes) → has (if has m ks then m else other) (other ∷ ks) ≡ true
known_or_other m other ks = elim (Bool-cases (has m ks)) [
  | inl known ↦ has-cons _ m other ks (rw known refl) known
  | inr new ↦ rw (new, (eq_bytes_iff other other).1 refl) refl
]

label_of_nil :
    (r : Request) (ps : List Bytes)
    → is_nil r.pattern ≡ true
    → has (route_metric_path r) (path_labels ps) ≡ true
unfolding route_metric_path
label_of_nil r ps h = rw h (path_labels-unmatched ps)

label_of_pattern :
    (r : Request) (ps : List Bytes)
    → has r.pattern ps ≡ true
    → has (route_metric_path r) (path_labels ps) ≡ true
unfolding route_metric_path
label_of_pattern r ps h = elim (Bool-cases (is_nil r.pattern)) [
  | inl empty ↦ rw empty (path_labels-unmatched ps)
  | inr some_ ↦ rw some_ (path_labels-template r.pattern ps h)
]

-- The method label is a known method or "other", and the path label "unmatched" or the template of a
-- pattern that the mux can set: a fixed set of labels, whatever the request's method and path.
pub route_metric_labels-listed :
    (r : Request) (patterns : List Bytes)
    → (is_nil r.pattern ≡ true) ⊎ (has r.pattern patterns ≡ true)
    → (has (route_metric_labels r).0 (metric_label_other ∷ known_methods) ≡ true)
      × (has (route_metric_labels r).1 (path_labels patterns) ≡ true)
unfolding route_metric_labels
route_metric_labels-listed r patterns h = (
  unfold route_metric_method in known_or_other r.method metric_label_other known_methods,
  elim h [
    | inl empty ↦ label_of_nil r patterns empty
    | inr listed ↦ label_of_pattern r patterns listed
  ],
)
