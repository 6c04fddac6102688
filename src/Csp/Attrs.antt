-- ===== src/Csp/Attrs.antt =====
-- What stands inside a start tag, and that its end is found behind it.
use webhttp.Prelude.{
  ℕ, suc, ◌+◌, [], ◌∷◌, ◌++◌, Option, none, some, ◌≡◌, ◌≢◌, refl, ap, ◌∙◌, ◌⊎◌, inl, inr, ◌==◌,
  ==_iff, length, length-append, take, append_assoc, Bytes, arith, Bool-cases, Option-cases, All,
}
use webhttp.Csp.{open_tag_end, is_quote, shift}

-- The inside of a start tag up to its end: bytes that are no quote and no ">", and strings in quotes
-- of one kind, which may hold the others.
pub data IsAttrs : Bytes → Type 0 where
  no_more : {s : Bytes} → s ≡ [] → IsAttrs s
  plain :
      {s : Bytes} (c : ℕ) (rest : Bytes)
      → c ≢ b'"'
      → c ≢ b'\''
      → c ≢ b'>'
      → IsAttrs rest
      → s ≡ c ∷ rest
      → IsAttrs s
  quoted :
      {s : Bytes} (q : ℕ) (inside rest : Bytes)
      → (q ≡ b'"') ⊎ (q ≡ b'\'')
      → All (λ c. c ≢ q) inside
      → IsAttrs rest
      → s ≡ q ∷ (inside ++ q ∷ rest)
      → IsAttrs s

shift-shift : (m n : ℕ) (o : Option ℕ) → shift m (shift n o) ≡ shift (m + n) o
shift-shift m n none = refl
shift-shift m n (some k) = ap some (omega arith)

quote_ends :
    (q : ℕ) (rest : Bytes) → open_tag_end (some q) (q ∷ rest) ≡ shift 1 (open_tag_end none rest)
unfolding open_tag_end
quote_ends q rest = rw ((==_iff q q).1 refl) refl

quote_goes_on :
    (q c : ℕ) (s : Bytes)
    → c ≢ q
    → open_tag_end (some q) (c ∷ s) ≡ shift 1 (open_tag_end (some q) s)
unfolding open_tag_end
quote_goes_on q c s ne = elim (Bool-cases (c == q)) [
  | inl same ↦ absurd (ne ((==_iff c q).0 same))
  | inr other ↦ rw other refl
]

inside_quotes :
    (q : ℕ) (inside rest : Bytes)
    → All (λ c. c ≢ q) inside
    → open_tag_end (some q) (inside ++ q ∷ rest)
      ≡ shift (suc (length inside)) (open_tag_end none rest)
inside_quotes q [] rest h = quote_ends q rest
inside_quotes q (c ∷ inside) rest (ne, h) =
    quote_goes_on q c (inside ++ q ∷ rest) ne
    ∙ ap (shift 1) (inside_quotes q inside rest h)
    ∙ shift-shift 1 (suc (length inside)) (open_tag_end none rest)
    ∙ ap (λ n. shift n (open_tag_end none rest)) (omega arith)

plain_goes_on :
    (c : ℕ) (s : Bytes)
    → c ≢ b'"'
    → c ≢ b'\''
    → c ≢ b'>'
    → open_tag_end none (c ∷ s) ≡ shift 1 (open_tag_end none s)
unfolding open_tag_end
plain_goes_on c s n1 n2 n3 = ground (arith, ==_iff c b'"', ==_iff c b'\'', ==_iff c b'>')

quote_opens :
    (q : ℕ) (s : Bytes)
    → (q ≡ b'"') ⊎ (q ≡ b'\'')
    → open_tag_end none (q ∷ s) ≡ shift 1 (open_tag_end (some q) s)
unfolding open_tag_end
quote_opens q s (inl e) = rw e refl
quote_opens q s (inr e) = rw e refl

at_end : (behind : Bytes) → open_tag_end none (b'>' ∷ behind) ≡ some 0
unfolding open_tag_end
at_end behind = refl

-- Behind text of this form, the first ">" ends the tag.
pub open_tag_end-attrs :
    {attrs : Bytes} (behind : Bytes)
    → IsAttrs attrs
    → open_tag_end none (attrs ++ b'>' ∷ behind) ≡ some (length attrs)
open_tag_end-attrs behind (no_more e) = rw e (at_end behind)
open_tag_end-attrs behind (plain c rest n1 n2 n3 h e) = rw e (
    plain_goes_on c (rest ++ b'>' ∷ behind) n1 n2 n3
    ∙ ap (shift 1) (open_tag_end-attrs behind h)
    ∙ ap some (omega arith))
open_tag_end-attrs behind (quoted q inside rest is_q none_in h e) =
    let tail = b'>' ∷ behind in
    rw e (
      quote_opens q ((inside ++ q ∷ rest) ++ tail) is_q
      ∙ ap (λ t. shift 1 (open_tag_end (some q) t)) (append_assoc inside (q ∷ rest) tail)
      ∙ ap (shift 1) (inside_quotes q inside (rest ++ tail) none_in)
      ∙ ap (λ o. shift 1 (shift (suc (length inside)) o)) (open_tag_end-attrs behind h)
      ∙ ap some (omega (arith, length-append inside (q ∷ rest))))

-- text that ends a quoted string, and goes on as the inside of a tag
record EndsQuote (q : ℕ) (s : Bytes) : Type 0 where
  inside : Bytes
  rest : Bytes
  none_in : All (λ c. c ≢ q) inside
  attrs : IsAttrs rest
  splits : s ≡ inside ++ q ∷ rest

abbrev UpTo : Option ℕ → Bytes → Type 0
UpTo none s = IsAttrs s
UpTo (some q) s = EndsQuote q s

-- Conversely, what stands before the end that is found is of this form.
attrs-UpTo :
    (quote : Option ℕ) (s : Bytes) (k : ℕ) → open_tag_end quote s ≡ some k → UpTo quote (take k s)
unfolding open_tag_end
attrs-UpTo quote [] k h = absurd (cc h)
attrs-UpTo (some q) (c ∷ s) k h = elim (Bool-cases (c == q)) [
  | inl same ↦ elim (Option-cases (open_tag_end none s)) [
    | inl missing ↦ absurd (ground arith)
    | inr (j, found) ↦
        let e : k ≡ suc j = ground arith in
        rw e (record {
          inside = [];
          rest = take j s;
          none_in = tt;
          attrs = attrs-UpTo none s j found;
          splits = rw ((==_iff c q).0 same) refl;
        })
  ]
  | inr other ↦ elim (Option-cases (open_tag_end (some q) s)) [
    | inl missing ↦ absurd (ground arith)
    | inr (j, found) ↦
        let e : k ≡ suc j = ground arith in
        let ends = attrs-UpTo (some q) s j found in
        rw e (record {
          inside = c ∷ ends.inside;
          rest = ends.rest;
          none_in = (λ same. cc ((==_iff c q).1 same), ends.none_in);
          attrs = ends.attrs;
          splits = ap (◌∷◌ c) ends.splits;
        })
  ]
]
attrs-UpTo none (c ∷ s) k h = elim (Bool-cases (is_quote c)) [
  | inl quote ↦ elim (Option-cases (open_tag_end (some c) s)) [
    | inl missing ↦ absurd (ground arith)
    | inr (j, found) ↦
        let e : k ≡ suc j = ground arith in
        let ends = attrs-UpTo (some c) s j found in
        rw e (
          quoted c ends.inside ends.rest (ground (arith, ==_iff c b'"', ==_iff c b'\''))
            ends.none_in ends.attrs (ap (◌∷◌ c) ends.splits))
  ]
  | inr other ↦ elim (Bool-cases (c == b'>')) [
    | inl gt ↦ let e : k ≡ 0 = ground arith in rw e (no_more refl)
    | inr inner ↦ elim (Option-cases (open_tag_end none s)) [
      | inl missing ↦ absurd (ground arith)
      | inr (j, found) ↦
          let e : k ≡ suc j = ground arith in
          rw e (
            plain c (take j s) (ground (arith, ==_iff c b'"')) (ground (arith, ==_iff c b'\''))
              (ground (arith, ==_iff c b'>')) (attrs-UpTo none s j found) refl)
    ]
  ]
]

pub open_tag_end-IsAttrs : (s : Bytes) (k : ℕ) → open_tag_end none s ≡ some k → IsAttrs (take k s)
open_tag_end-IsAttrs s k h = attrs-UpTo none s k h
