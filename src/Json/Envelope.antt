-- ===== src/Json/Envelope.antt =====
-- What the error envelope promises of its code, and of a response it is written to.
use webhttp.Prelude.{
  ℕ, true, false, [], ◌∷◌, Option, none, some, ◌≡◌, ◌⊎◌, Bytes, codes, arith, inl, inr, refl,
  Bool-cases, eq_bytes, ◌∙◌, ◌++◌, append-nil, is_nil, ◌≤◌, ◌↔◌, All, within, ◌==◌, ◌||◌,
}
use webhttp.Header.{get, values, set}
use webhttp.Header.Laws.{values-set}
use webhttp.Http.{Request, Response, write_header, write, is_committed, is_interim}
use webhttp.Json.{
  valid_error_code, checked_error_code, error_envelope, json_headers, write_json_status,
}

-- a lowercase letter, a digit or an underscore of ASCII
abbrev pub IsTokenByte : ℕ → Type 0
IsTokenByte c = (97 ≤ c) × (c ≤ 122) ⊎ ((48 ≤ c) × (c ≤ 57) ⊎ (c ≡ 95))

-- A machine token is made of such bytes alone.
abbrev pub IsToken : Bytes → Type 0
IsToken code = All IsTokenByte code

IsTokenByte-iff :
    (c : ℕ) → (within b'a' b'z' c || within b'0' b'9' c || c == b'_' ≡ true) ↔ IsTokenByte c
IsTokenByte-iff c = (λ h. ground arith, λ h. ground arith)

valid_error_code_iff : (code : Bytes) → (valid_error_code code ≡ true) ↔ IsToken code
unfolding valid_error_code
valid_error_code_iff [] = (λ h. tt, λ h. refl)
valid_error_code_iff (c ∷ s) =
    let (to, from) = IsTokenByte-iff c in
    let (later, before) = valid_error_code_iff s in
    (λ h. (to (ground arith), later (ground arith)), λ h. ground (arith, from h.0, before h.1))

fallback-IsToken : IsToken (codes "invalid_error_code")
fallback-IsToken =
    (valid_error_code_iff (codes "invalid_error_code")).0 (unfold valid_error_code in refl)

-- Whatever code a handler gives, that of the envelope is made of lowercase letters, digits and
-- underscores alone: the given one if it is, and else "invalid_error_code". The message and the
-- request's id are kept.
pub error_envelope-code :
    (r : Request) (code msg : Bytes)
    → let e = error_envelope r code msg in
      IsToken e.code
      × (IsToken code → e.code ≡ code)
      × (¬ IsToken code → e.code ≡ codes "invalid_error_code")
      × (e.error ≡ msg)
      × (e.request_id ≡ r.request_id)
unfolding error_envelope checked_error_code
error_envelope-code r code msg =
    let (to, from) = valid_error_code_iff code in
    elim (Bool-cases (valid_error_code code)) [
      | inl valid ↦ rw valid (to valid, λ t. refl, λ n. absurd (n (to valid)), refl, refl)
      | inr no_ ↦ rw no_ (fallback-IsToken, λ t. cc (from t), λ n. refl, refl, refl)
    ]

-- The other fields keep their values.
pub json_headers-other :
    (w : Response) (k : Bytes)
    → eq_bytes (codes "Content-Type") k ≡ false
    → eq_bytes (codes "X-Content-Type-Options") k ≡ false
    → values k (json_headers w).header ≡ values k w.header
unfolding json_headers
json_headers-other w k h1 h2 =
    let typed = set (codes "Content-Type") (codes "application/json") w.header in
    let ct = values-set (codes "Content-Type") k (codes "application/json") w.header in
    let sniff = values-set (codes "X-Content-Type-Options") k (codes "nosniff") typed in
    elim (Bool-cases (is_nil (get (codes "X-Content-Type-Options") typed))) [
      | inl missing ↦ rw missing (sniff ∙ rw (h2, ct, h1))
      | inr there ↦ rw there (ct ∙ rw h1)
    ]

pub json_headers-type :
    (w : Response)
    → values (codes "Content-Type") (json_headers w).header ≡ codes "application/json" ∷ []
unfolding json_headers
json_headers-type w =
    let name = codes "Content-Type" in
    let typed = set name (codes "application/json") w.header in
    let ct = values-set name name (codes "application/json") w.header in
    let sniff = values-set (codes "X-Content-Type-Options") name (codes "nosniff") typed in
    elim (Bool-cases (is_nil (get (codes "X-Content-Type-Options") typed))) [
      | inl missing ↦ rw missing (sniff ∙ ct)
      | inr there ↦ rw there ct
    ]

abbrev pub encoded : Option Bytes → Bytes
encoded none = []
encoded (some b) = b

-- What a JSON response with a final status sends, where nothing has been sent yet.
pub write_json_status_sent :
    {V : Type 0} (encode : V → Option Bytes) (code : ℕ) (v : V) (w : Response)
    → is_committed w ≡ false
    → is_interim code ≡ false
    → let w' = write_json_status encode code v w in
      (w'.status ≡ some code)
      × (w'.sent ≡ (json_headers w).header)
      × (w'.body ≡ w.body ++ encoded (encode v))
unfolding write_json_status write_header write json_headers
write_json_status_sent encode code v w open_ final = ground (arith, append-nil w.body)
