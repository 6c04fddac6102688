-- ===== src/Gzip/Marked.antt =====
-- The header of a response that depends on Accept-Encoding, and of one that was compressed.
use webhttp.Prelude.{
  Bool, true, false, ◌||◌, List, [], ◌∷◌, ◌++◌, some, ◌≡◌, ◌⊎◌, refl, sym, ap, ◌∙◌, Bytes, codes,
  is_nil, any, any-append, append_assoc, keep, join, eq_bytes, eq_bytes_iff, cut_prefix, arith,
  Bool-cases, Option-cases, inl, inr,
}
use webhttp.AsciiFold.{equal_ascii_fold}
use webhttp.FieldList.{token_list, field_list, field_elements}
use webhttp.FieldList.Laws.{field_elements-append}
use webhttp.Header.{Header, values, get, set, del}
use webhttp.Header.Laws.{values-set, values-del, values-add}
use webhttp.Gzip.{add_vary_accept_encoding}
use webhttp.Gzip.Writer.{mark_compressed}
use webhttp.Gzip.Sending.{is_nil-eq}

abbrev lists_encoding : Bytes → Bool
lists_encoding elem = eq_bytes elem (codes "*") || equal_ascii_fold elem (codes "Accept-Encoding")

-- Vary lists Accept-Encoding, or is "*"
abbrev pub varies : Header → Bool
varies h = any lists_encoding (field_list h (codes "Vary") token_list)

join_last :
    (v u : Bytes) (us : List Bytes)
    → join (codes ",") ((u ∷ us) ++ v ∷ []) ≡ join (codes ",") (u ∷ us) ++ b',' ∷ v
join_last v u [] = refl
join_last v u (t ∷ us) =
    ap (λ s. u ++ b',' ∷ s) (join_last v t us)
    ∙ sym (append_assoc u (b',' ∷ join (codes ",") (t ∷ us)) (b',' ∷ v))

added_lists :
    (vs : List Bytes)
    → any lists_encoding
        (field_elements token_list (join (codes ",") (vs ++ codes "Accept-Encoding" ∷ [])))
      ≡ true
unfolding field_elements equal_ascii_fold
added_lists [] = refl
added_lists (u ∷ us) =
    let name = codes "Accept-Encoding" in
    let before = field_elements token_list (join (codes ",") (u ∷ us)) in
    let last : any lists_encoding (field_elements token_list name) ≡ true = refl in
    rw
      (
        join_last name u us,
        field_elements-append (join (codes ",") (u ∷ us)) name,
        any-append lists_encoding before (field_elements token_list name),
        last,
      )
      (ground arith)

pub add_vary-varies : (h : Header) → varies (add_vary_accept_encoding h) ≡ true
unfolding add_vary_accept_encoding field_list
add_vary-varies h = elim (Bool-cases (varies h)) [
  | inl old ↦ rw old old
  | inr new ↦
      let there = values-add (codes "Vary") (codes "Vary") (codes "Accept-Encoding") h in
      rw (new, there) (added_lists (values (codes "Vary") h))
]

names_something :
    (vs : List Bytes)
    → any lists_encoding (field_elements token_list (join (codes ",") vs)) ≡ true
    → is_nil vs ≡ false
unfolding field_elements
names_something [] h = sym h
names_something (v ∷ vs) h = refl

pub vary_there : (h : Header) → varies h ≡ true → is_nil (values (codes "Vary") h) ≡ false
unfolding field_list
vary_there h v = names_something (values (codes "Vary") h) v

-- The name of a field that is no trailer keeps its values where the trailers are taken out.
pub values-keep :
    (k : Bytes) (p : Bytes → Bool) (h : Header)
    → p k ≡ true
    → values k (keep (λ kv. p kv.0) h) ≡ values k h
unfolding values
values-keep k p [] t = refl
values-keep k p ((j, v) ∷ h) t = ground (arith, eq_bytes_iff j k, values-keep k p h)

pub values-append :
    (k : Bytes) (g h : Header) → is_nil (values k g) ≡ false → values k (g ++ h) ≡ values k g
unfolding values
values-append k [] h t = cc
values-append k ((j, v) ∷ g) h t = ground (arith, values-append k g h)

pub record IsMarked (h : Header) : Type 0 where
  pub coding : values (codes "Content-Encoding") h ≡ codes "gzip" ∷ []
  pub no_length : values (codes "Content-Length") h ≡ []
  pub no_ranges : values (codes "Accept-Ranges") h ≡ []
  pub no_strong_tag :
      (get (codes "Etag") h ≡ [])
      ⊎ (s : Bytes) × (cut_prefix (codes "W/") (get (codes "Etag") h) ≡ some s)
  pub by_encoding : varies h ≡ true

-- `h'` is the header without length and ranges, up to its tag.
marked :
    (h h' : Header)
    → let h3 =
        del
          (codes "Accept-Ranges")
          (del (codes "Content-Length") (set (codes "Content-Encoding") (codes "gzip") h)) in
      ((k : Bytes) → eq_bytes (codes "Etag") k ≡ false → values k h' ≡ values k h3)
      → (get (codes "Etag") h' ≡ [])
        ⊎ (s : Bytes) × (cut_prefix (codes "W/") (get (codes "Etag") h') ≡ some s)
      → varies h ≡ true
      → IsMarked h'
unfolding field_list
marked h h' same tag v =
    let h1 = set (codes "Content-Encoding") (codes "gzip") h in
    let h2 = del (codes "Content-Length") h1 in
    let before = λ (k : Bytes). values-set (codes "Content-Encoding") k (codes "gzip") h in
    let kept : values (codes "Vary") h' ≡ values (codes "Vary") h =
      same (codes "Vary") refl
      ∙ values-del (codes "Accept-Ranges") (codes "Vary") h2
      ∙ values-del (codes "Content-Length") (codes "Vary") h1
      ∙ before (codes "Vary") in
    record {
      coding =
          same (codes "Content-Encoding") refl
          ∙ values-del (codes "Accept-Ranges") (codes "Content-Encoding") h2
          ∙ values-del (codes "Content-Length") (codes "Content-Encoding") h1
          ∙ before (codes "Content-Encoding");
      no_length =
          same (codes "Content-Length") refl
          ∙ values-del (codes "Accept-Ranges") (codes "Content-Length") h2
          ∙ values-del (codes "Content-Length") (codes "Content-Length") h1;
      no_ranges =
          same (codes "Accept-Ranges") refl
          ∙ values-del (codes "Accept-Ranges") (codes "Accept-Ranges") h2;
      no_strong_tag = tag;
      by_encoding = rw kept v;
    }

pub mark_compressed-IsMarked : (h : Header) → varies h ≡ true → IsMarked (mark_compressed h)
unfolding mark_compressed get
mark_compressed-IsMarked h v =
    let h3 =
      del (codes "Accept-Ranges")
        (del (codes "Content-Length") (set (codes "Content-Encoding") (codes "gzip") h)) in
    let etag = get (codes "Etag") h3 in
    elim (Bool-cases (is_nil etag)) [
      | inl missing ↦ rw missing (marked h h3 (λ k e. refl) (inl (is_nil-eq etag missing)) v)
      | inr there ↦ elim (Option-cases (cut_prefix (codes "W/") etag)) [
        | inr (x, weak) ↦ rw (there, weak) (marked h h3 (λ k e. refl) (inr (x, weak)) v)
        | inl strong ↦
            let tag = codes "W/" ++ etag in
            let now = values-set (codes "Etag") (codes "Etag") tag h3 in
            rw (there, strong)
              (marked h (set (codes "Etag") tag h3)
                (λ k e. values-set (codes "Etag") k tag h3 ∙ rw e refl) (inr (etag, rw now refl)) v)
      ]
    ]
