-- ===== src/Static/Answer.antt =====
-- What a client gets of the gzip form of a file.
use webhttp.Prelude.{
  Bool, true, false, ◌&&◌, ◌||◌, not, [], ◌∷◌, ◌++◌, none, some, ◌≡◌, ◌⊎◌, refl, ap, ◌∙◌, is_nil,
  length, Bytes, codes, eq_bytes, itoa, arith, Bool-cases, inl, inr,
}
use webhttp.Header.{Header, values, get, set, add}
use webhttp.Header.Laws.{values-set, values-add}
use webhttp.Http.{Request, Response, is_committed, write_header, write}
use webhttp.Gzip.{accepts_gzip}
use webhttp.Gzip.Sending.{final_status, send_final, write_open}
use webhttp.Static.{GzAsset, if_none_match, gz_etag, serve_gzip, set_if_some}

-- a request that may be answered with a gzip body
abbrev pub wants_gzip : Request → Bool
wants_gzip r =
    (eq_bytes r.method (codes "GET") || eq_bytes r.method (codes "HEAD"))
    && is_nil (get (codes "Range") r.header)
    && accepts_gzip r.header

-- The header of an asset with an entity-tag, over what the response had.
pub record IsTagged (tag : Bytes) (before h : Header) : Type 0 where
  pub etag : values (codes "Etag") h ≡ tag ∷ []
  pub vary : values (codes "Vary") h ≡ values (codes "Vary") before ++ codes "Accept-Encoding" ∷ []

set_if_some-other :
    (k cc_ : Bytes) (h : Header)
    → eq_bytes (codes "Cache-Control") k ≡ false
    → values k (set_if_some cc_ h) ≡ values k h
set_if_some-other k v h e = elim (Bool-cases (is_nil v)) [
  | inl empty ↦ rw empty refl
  | inr some_ ↦ rw some_ (values-set (codes "Cache-Control") k v h ∙ rw e refl)
]

pub known-IsTagged :
    (tag cc_ : Bytes) (h : Header)
    → IsTagged tag h
        (add (codes "Vary") (codes "Accept-Encoding") (set_if_some cc_ (set (codes "Etag") tag h)))
known-IsTagged tag v h =
    let h1 = set (codes "Etag") tag h in
    let h2 = set_if_some v h1 in
    record {
      etag =
          values-add (codes "Vary") (codes "Etag") (codes "Accept-Encoding") h2
          ∙ set_if_some-other (codes "Etag") v h1 refl
          ∙ values-set (codes "Etag") (codes "Etag") tag h;
      vary =
          values-add (codes "Vary") (codes "Vary") (codes "Accept-Encoding") h2
          ∙ ap (λ vs. vs ++ codes "Accept-Encoding" ∷ [])
              (set_if_some-other (codes "Vary") v h1 refl
                ∙ values-set (codes "Etag") (codes "Vary") tag h);
    }

retagged :
    (old tag : Bytes) (before h : Header)
    → IsTagged old before h
    → IsTagged tag before (set (codes "Etag") tag h)
retagged old tag before h t = record {
  etag = values-set (codes "Etag") (codes "Etag") tag h;
  vary = values-set (codes "Etag") (codes "Vary") tag h ∙ t.vary;
}

-- How a gzip body is answered: `header` is what goes out, or would for HEAD.
pub record IsPacked (tag : Bytes) (gz : GzAsset) (before h : Header) : Type 0 where
  pub tagged : IsTagged tag before h
  pub coding : values (codes "Content-Encoding") h ≡ codes "gzip" ∷ []
  pub content_type : values (codes "Content-Type") h ≡ gz.content_type ∷ []
  pub content_length : values (codes "Content-Length") h ≡ itoa (length gz.body) ∷ []

pub data IsPackedAnswer (r : Request) (tag : Bytes) (gz : GzAsset) (before : Header) (w : Response)
    : Type 0 where
  not_modified :
      if_none_match r.header tag ≡ true
      → w.status ≡ some 304
      → IsTagged tag before w.sent
      → w.body ≡ []
      → IsPackedAnswer r tag gz before w
  full :
      if_none_match r.header tag ≡ false
      → eq_bytes r.method (codes "HEAD") ≡ false
      → w.status ≡ some 200
      → IsPacked tag gz before w.sent
      → w.body ≡ gz.body
      → IsPackedAnswer r tag gz before w
  -- the server sends the header
  head_only :
      if_none_match r.header tag ≡ false
      → eq_bytes r.method (codes "HEAD") ≡ true
      → w.status ≡ none
      → IsPacked tag gz before w.header
      → w.body ≡ []
      → IsPackedAnswer r tag gz before w

abbrev packed_of : GzAsset → Header → Header
packed_of gz h =
    set (codes "Content-Length") (itoa (length gz.body))
      (set (codes "Content-Type") gz.content_type (set (codes "Content-Encoding") (codes "gzip") h))

no_status : (w : Response) → is_committed w ≡ false → w.status ≡ none
no_status w open_ = ground arith

header-IsPacked :
    (tag : Bytes) (gz : GzAsset) (before h : Header)
    → IsTagged tag before h
    → IsPacked tag gz before (packed_of gz h)
header-IsPacked tag gz before h t =
    let h1 = set (codes "Content-Encoding") (codes "gzip") h in
    let h2 = set (codes "Content-Type") gz.content_type h1 in
    let last = λ (k : Bytes). values-set (codes "Content-Length") k (itoa (length gz.body)) h2 in
    let typed = λ (k : Bytes). values-set (codes "Content-Type") k gz.content_type h1 in
    let coded = λ (k : Bytes). values-set (codes "Content-Encoding") k (codes "gzip") h in
    record {
      tagged = record {
        etag = last (codes "Etag") ∙ typed (codes "Etag") ∙ coded (codes "Etag") ∙ t.etag;
        vary = last (codes "Vary") ∙ typed (codes "Vary") ∙ coded (codes "Vary") ∙ t.vary;
      };
      coding =
          last (codes "Content-Encoding")
          ∙ typed (codes "Content-Encoding")
          ∙ coded (codes "Content-Encoding");
      content_type = last (codes "Content-Type") ∙ typed (codes "Content-Type");
      content_length = last (codes "Content-Length");
    }

pub serve_gzip_answers :
    (r : Request) (etag : Bytes) (gz : GzAsset) (before : Header) (w : Response)
    → is_committed w ≡ false
    → w.body ≡ []
    → IsTagged etag before w.header
    → (wants_gzip r ≡ false) × (serve_gzip r etag gz w ≡ none)
      ⊎ (wants_gzip r ≡ true)
        × ((w' : Response) × (serve_gzip r etag gz w ≡ some w')
            × IsPackedAnswer r (gz_etag etag) gz before w')
unfolding serve_gzip write write_header
serve_gzip_answers r etag gz before w open_ empty t =
    let get_ = eq_bytes r.method (codes "GET") in
    let head = eq_bytes r.method (codes "HEAD") in
    let whole = is_nil (get (codes "Range") r.header) in
    let tag = gz_etag etag in
    let h = set (codes "Etag") tag w.header in
    let tagged = retagged etag tag before w.header t in
    let header = header-IsPacked tag gz before h tagged in
    elim (Bool-cases (wants_gzip r)) [
      | inr no_ ↦ elim (Bool-cases (not get_ && not head)) [
        | inl neither ↦ inl (no_, rw neither refl)
        | inr served ↦
            let refused : (not whole || not (accepts_gzip r.header)) ≡ true = ground arith in
            inl (no_, rw (served, refused) refl)
      ]
      | inl wants ↦
          let served : (not get_ && not head) ≡ false = ground arith in
          let offered : (not whole || not (accepts_gzip r.header)) ≡ false = ground arith in
          elim (Bool-cases (if_none_match r.header tag)) [
            | inl same ↦
                let w1 : Response = record w { header = h } in
                let (body, sent, done) = send_final 304 w1 open_ refl in
                inr (
                  wants,
                  (
                    write_header 304 w1,
                    rw (served, offered, same) refl,
                    not_modified same (final_status 304 w1 open_ refl) (rw sent tagged)
                        (body ∙ empty),
                  ),
                )
            | inr other ↦ elim (Bool-cases head) [
              | inl is_head ↦ inr (
                wants,
                (
                  record w { header = packed_of gz h },
                  rw (served, offered, other, is_head) refl,
                  head_only other is_head (no_status w open_) header empty,
                ),
              )
              | inr body_ ↦
                  let w1 : Response = record w { header = packed_of gz h } in
                  let (status, sent, body) = write_open gz.body w1 open_ in
                  inr (
                    wants,
                    (
                      write gz.body w1,
                      rw (served, offered, other, body_) refl,
                      full other body_ status (rw sent header)
                          (body ∙ ap (λ b. b ++ gz.body) empty),
                    ),
                  )
            ]
          ]
    ]
