-- ===== src/Csp/Spans.antt =====
-- The spans that are hashed are those between a start tag and the first end tag behind it.
use webhttp.Prelude.{
  ℕ, zero, suc, ◌+◌, ◌≤◌, ◌<◌, Bool, true, false, ◌&&◌, not, List, [], ◌∷◌, ◌++◌, map, Option, none,
  some, ◌≡◌, refl, sym, ap, ◌∙◌, ◌==◌, if◌then◌else◌, length, take, drop, keep, Bytes, arith,
  Bool-cases, Option-cases, inl, inr, ==_iff, ◌⊎◌,
}
use webhttp.Csp.{
  has_fold_prefix, find_element_open, find_element_close, open_tag_end, is_quote, Element,
  next_element, contents,
}
use webhttp.Csp.Attrs.{IsAttrs, open_tag_end-attrs, open_tag_end-IsAttrs}
use webhttp.Csp.First.{
  IsName, is_here, first_at, drop-drop, length-drop-le, has_fold_prefix-length,
  find_element-eq-first,
}

take-drop : (k : ℕ) (s : Bytes) → take k s ++ drop k s ≡ s
take-drop zero s = refl
take-drop (suc k) [] = refl
take-drop (suc k) (c ∷ s) = ap (◌∷◌ c) (take-drop k s)

length-take : (k : ℕ) (s : Bytes) → k ≤ length s → length (take k s) ≡ k
length-take zero s h = refl
length-take (suc k) [] h = absurd (omega arith)
length-take (suc k) (c ∷ s) h = ap suc (length-take k s (omega arith))

first_at_here :
    (at_end : Bool) (tag s : Bytes) (k : ℕ)
    → first_at at_end tag s ≡ some k
    → (is_here at_end tag (drop k s) ≡ true) × (k ≤ length s)
first_at_here at_end tag [] k h = elim (Bool-cases (is_here at_end tag [])) [
  | inl here ↦ let e : k ≡ 0 = ground arith in rw e (here, omega arith)
  | inr no_ ↦ absurd (ground arith)
]
first_at_here at_end tag (c ∷ s) k h = elim (Bool-cases (is_here at_end tag (c ∷ s))) [
  | inl here ↦ let e : k ≡ 0 = ground arith in rw e (here, omega arith)
  | inr no_ ↦ elim (Option-cases (first_at at_end tag s)) [
    | inl missing ↦ absurd (ground arith)
    | inr (j, found) ↦
        let e : k ≡ suc j = ground arith in
        let (here, le) = first_at_here at_end tag s j found in rw e (here, omega arith)
  ]
]

open_tag_end_here :
    (quote : Option ℕ) (s : Bytes) (k : ℕ)
    → open_tag_end quote s ≡ some k
    → (drop k s ≡ b'>' ∷ drop (suc k) s) × (k < length s)
unfolding open_tag_end
open_tag_end_here quote [] k h = absurd (cc h)
open_tag_end_here (some q) (c ∷ s) k h =
    elim (Option-cases (open_tag_end (if c == q then none else some q) s)) [
      | inl missing ↦ absurd (ground arith)
      | inr (j, found) ↦
          let e : k ≡ suc j = ground arith in
          let (gt, lt) = open_tag_end_here (if c == q then none else some q) s j found in
          rw e (gt, omega arith)
    ]
open_tag_end_here none (c ∷ s) k h = elim (Bool-cases (not (is_quote c) && c == b'>')) [
  | inl gt ↦
      let e : k ≡ 0 = ground arith in
      let at_gt : c ≡ b'>' = ground (arith, ==_iff c b'>') in rw e (rw at_gt refl, omega arith)
  | inr inside ↦
      let quote' : Option ℕ = if is_quote c then some c else none in
      elim (Option-cases (open_tag_end quote' s)) [
        | inl missing ↦ absurd (ground arith)
        | inr (j, found) ↦
            let e : k ≡ suc j = ground arith in
            let (gt, lt) = open_tag_end_here quote' s j found in rw e (gt, omega arith)
      ]
]

tail_splits :
    (tail : Bytes) (gt : ℕ)
    → open_tag_end none tail ≡ some gt
    → tail ≡ take gt tail ++ b'>' ∷ drop (suc gt) tail
tail_splits tail gt ended =
    sym (
      ap (λ t. take gt tail ++ t) (sym (open_tag_end_here none tail gt ended).0)
      ∙ take-drop gt tail)

-- No element is left: there is no start tag, or its inside does not end, or no end tag is behind it.
pub data NoElement (tag html : Bytes) : Type 0 where
  no_start : first_at true (b'<' ∷ tag) html ≡ none → NoElement tag html
  no_end :
      (o : ℕ)
      → first_at true (b'<' ∷ tag) html ≡ some o
      → ((a b : Bytes) → drop (o + suc (length tag)) html ≡ a ++ b'>' ∷ b → ¬ IsAttrs a)
      → NoElement tag html
  no_close :
      (o : ℕ) (attrs inner : Bytes)
      → first_at true (b'<' ∷ tag) html ≡ some o
      → drop (o + suc (length tag)) html ≡ attrs ++ b'>' ∷ inner
      → IsAttrs attrs
      → first_at false (b'<' ∷ (b'/' ∷ tag)) inner ≡ none
      → NoElement tag html

-- The page splits into what stands before the element, its start tag with the attributes, its content
-- and its end tag, each found at the first place where it can be.
pub record IsElement (tag html : Bytes) (e : Element) : Type 0 where
  pub before : Bytes
  pub open_name : Bytes
  pub close_name : Bytes
  pub splits :
      html ≡ before ++ (open_name ++ (e.attrs ++ b'>' ∷ (e.content ++ (close_name ++ e.rest))))
  pub opens_first : first_at true (b'<' ∷ tag) html ≡ some (length before)
  -- so the ">" behind is the first one outside quotes
  pub tag_ends : IsAttrs e.attrs
  pub closes_first :
      first_at false (b'<' ∷ (b'/' ∷ tag)) (e.content ++ (close_name ++ e.rest))
      ≡ some (length e.content)
  pub shorter : length e.rest < length html

-- `s` from `k` on: what is cut off there, the tag of length `n` and the rest
cut_at : (k n : ℕ) (s : Bytes) → s ≡ take k s ++ (take n (drop k s) ++ drop (k + n) s)
cut_at k n s = sym (
    ap (λ t. take k s ++ (take n (drop k s) ++ t)) (drop-drop k n s)
    ∙ ap (λ t. take k s ++ t) (take-drop n (drop k s))
    ∙ take-drop k s)

prefix_of_here :
    (at_end : Bool) (tag s : Bytes) → is_here at_end tag s ≡ true → has_fold_prefix s tag ≡ true
prefix_of_here at_end tag s h = ground arith

module _ (tag : Bytes) (name : IsName tag) where
  content-IsElement :
      (html : Bytes) (o gt k : ℕ)
      → let tail = drop (o + suc (length tag)) html in
        let inner = drop (suc gt) tail in
        first_at true (b'<' ∷ tag) html ≡ some o
        → open_tag_end none tail ≡ some gt
        → first_at false (b'<' ∷ (b'/' ∷ tag)) inner ≡ some k
        → IsElement tag html (record {
          attrs = take gt tail;
          content = take k inner;
          rest = drop (k + suc (suc (length tag))) inner;
        })
  content-IsElement html o gt k opened ended closed =
      let n = suc (length tag) in
      let tail = drop (o + n) html in
      let inner = drop (suc gt) tail in
      let (here, o_le) = first_at_here true (b'<' ∷ tag) html o opened in
      let (at_gt, gt_lt) = open_tag_end_here none tail gt ended in
      let (closes, k_le) = first_at_here false (b'<' ∷ (b'/' ∷ tag)) inner k closed in
      let inner_splits = cut_at k (suc n) inner in
      let full = tail_splits tail gt ended ∙ ap (λ t. take gt tail ++ b'>' ∷ t) inner_splits in
      record {
        before = take o html;
        open_name = take n (drop o html);
        close_name = take (suc n) (drop k inner);
        splits = cut_at o n html ∙ ap (λ t. take o html ++ (take n (drop o html) ++ t)) full;
        opens_first = opened ∙ ap some (sym (length-take o html o_le));
        tag_ends = open_tag_end-IsAttrs tail gt ended;
        closes_first =
            ap (first_at false (b'<' ∷ (b'/' ∷ tag))) (sym inner_splits)
            ∙ closed
            ∙ ap some (sym (length-take k inner k_le));
        shorter = omega (
          arith,
          length-drop-le (k + suc n) inner,
          length-drop-le (suc gt) tail,
          ap length (drop-drop o n html),
          length-drop-le o html,
          has_fold_prefix-length (drop o html) (b'<' ∷ tag)
              (prefix_of_here true (b'<' ∷ tag) _ here),
        );
      }

  next_element_cases :
      (html : Bytes)
      → (next_element tag html ≡ none) × NoElement tag html
        ⊎ ((e : Element) × (next_element tag html ≡ some e) × IsElement tag html e)
  unfolding next_element
  next_element_cases html = elim (Option-cases (find_element_open html (b'<' ∷ tag))) [
    | inl missing ↦
        inl (ground arith, no_start (sym (find_element-eq-first tag name html).0 ∙ missing))
    | inr (o, opened) ↦
        let tail = drop (o + suc (length tag)) html in
        elim (Option-cases (open_tag_end none tail)) [
          | inl missing ↦ inl (
            ground arith,
            no_end o (sym (find_element-eq-first tag name html).0 ∙ opened)
                (λ a b e h. cc (missing, ap (open_tag_end none) e, open_tag_end-attrs b h)),
          )
          | inr (gt, ended) ↦
              let inner = drop (suc gt) tail in
              elim (Option-cases (find_element_close inner (b'<' ∷ (b'/' ∷ tag)))) [
                | inl missing ↦ inl (
                  ground arith,
                  no_close o (take gt tail) inner
                      (sym (find_element-eq-first tag name html).0 ∙ opened)
                      (tail_splits tail gt ended) (open_tag_end-IsAttrs tail gt ended)
                      (sym (find_element-eq-first tag name inner).1 ∙ missing),
                )
                | inr (k, closed) ↦ inr (
                  record {
                    attrs = take gt tail;
                    content = take k inner;
                    rest = drop (k + suc (suc (length tag))) inner;
                  },
                  ground arith,
                  content-IsElement html o gt k
                      (sym (find_element-eq-first tag name html).0 ∙ opened) ended
                      (sym (find_element-eq-first tag name inner).1 ∙ closed),
                )
              ]
        ]
  ]

  -- The elements of a page, one behind the other, up to where there is none.
  abbrev pub AreElements : Bytes → List Element → Type 0
  AreElements html [] = NoElement tag html
  AreElements html (e ∷ es) = IsElement tag html e × AreElements e.rest es

  contents_of :
      (fuel : ℕ) (skip : Bytes → Bool) (html : Bytes)
      → length html < fuel
      → (es : List Element) × AreElements html es
        × (contents fuel tag skip html
            ≡ some (map (λ e. e.content) (keep (λ e. not (skip e.attrs)) es)))
  unfolding contents
  contents_of zero skip html lt = absurd (omega arith)
  contents_of (suc fuel) skip html lt = elim (next_element_cases html) [
    | inl (missing, no_more) ↦ ([], no_more, ground arith)
    | inr (e, found, is_element) ↦
        let (es, are, same) = contents_of fuel skip e.rest (omega (arith, is_element.shorter)) in
        (
          e ∷ es,
          (is_element, are),
          elim (Bool-cases (skip e.attrs)) [ inl skipped ↦ ground arith | inr kept ↦ ground arith ],
        )
  ]

  -- For a tag name without "<", the scan of a page ends, and gives the contents of the page's elements
  -- in order, less those whose attributes are skipped, and behind the last of them there is no further
  -- element. Each content is exactly what stands between the end of a start tag, which is the first one
  -- and ends at its first ">" outside quotes, and the first end tag behind it.
  pub contents-AreElements :
      (skip : Bytes → Bool) (html : Bytes)
      → (es : List Element) × AreElements html es
        × (contents (suc (length html)) tag skip html
            ≡ some (map (λ e. e.content) (keep (λ e. not (skip e.attrs)) es)))
  contents-AreElements skip html = contents_of (suc (length html)) skip html (omega arith)
