-- ===== src/Gzip/Sending.antt =====
-- What a sent header, a status and a write leave of a response.
use webhttp.Prelude.{
  ℕ, true, false, List, [], ◌∷◌, ◌++◌, ◌≡◌, refl, ◌∙◌, Bytes, codes, is_nil, some, arith,
  Bool-cases, Option-cases, inl, inr, cut_prefix,
}
use webhttp.Header.{Header, values, get, set, del}
use webhttp.Header.Laws.{values-set, values-del}
use webhttp.Http
use webhttp.Http.{Response, is_committed, is_interim}
use webhttp.Gzip.Writer.{mark_compressed}

-- Marking a header leaves "gzip" as its one content coding.
pub mark_compressed-coding :
    (h : Header) → values (codes "Content-Encoding") (mark_compressed h) ≡ codes "gzip" ∷ []
unfolding mark_compressed
mark_compressed-coding h =
    let name = codes "Content-Encoding" in
    let h1 = set name (codes "gzip") h in
    let h2 = del (codes "Content-Length") h1 in
    let h3 = del (codes "Accept-Ranges") h2 in
    let etag = get (codes "Etag") h3 in
    let kept : values name h3 ≡ codes "gzip" ∷ [] =
      values-del (codes "Accept-Ranges") name h2
      ∙ values-del (codes "Content-Length") name h1
      ∙ values-set name name (codes "gzip") h in
    let weak = values-set (codes "Etag") name (codes "W/" ++ etag) h3 ∙ kept in
    elim (Bool-cases (is_nil etag)) [
      | inl missing ↦ rw missing kept
      | inr there ↦ elim (Option-cases (cut_prefix (codes "W/") etag)) [
        | inl strong ↦ rw (there, strong) weak
        | inr (x, is_weak) ↦ rw (there, is_weak) kept
      ]
    ]

-- A write on a response that is sent already adds to the body alone.
pub write_committed :
    (b : Bytes) (w : Response)
    → is_committed w ≡ true
    → ((Http.write b w).body ≡ w.body ++ b)
      × ((Http.write b w).sent ≡ w.sent)
      × (is_committed (Http.write b w) ≡ true)
unfolding Http.write Http.write_header
write_committed b w h = ground arith

pub send_final :
    (code : ℕ) (w : Response)
    → is_committed w ≡ false
    → is_interim code ≡ false
    → ((Http.write_header code w).body ≡ w.body)
      × ((Http.write_header code w).sent ≡ w.header)
      × (is_committed (Http.write_header code w) ≡ true)
unfolding Http.write_header
send_final code w open_ final = ground arith

pub final_status :
    (code : ℕ) (w : Response)
    → is_committed w ≡ false
    → is_interim code ≡ false
    → (Http.write_header code w).status ≡ some code
unfolding Http.write_header
final_status code w open_ final = ground arith

-- The first write sends the implicit 200.
pub write_open :
    (b : Bytes) (w : Response)
    → is_committed w ≡ false
    → ((Http.write b w).status ≡ some 200)
      × ((Http.write b w).sent ≡ w.header)
      × ((Http.write b w).body ≡ w.body ++ b)
unfolding Http.write Http.write_header
write_open b w open_ = ground arith

pub send_interim :
    (code : ℕ) (w : Response)
    → is_committed w ≡ false
    → is_interim code ≡ true
    → ((Http.write_header code w).body ≡ w.body) × (is_committed (Http.write_header code w) ≡ false)
unfolding Http.write_header
send_interim code w open_ interim = ground arith

pub is_nil-eq : (s : Bytes) → is_nil s ≡ true → s ≡ []
is_nil-eq [] h = refl
is_nil-eq (c ∷ s) h = cc

-- the content codings that went out
abbrev pub coding : Response → List Bytes
coding w = values (codes "Content-Encoding") w.sent
