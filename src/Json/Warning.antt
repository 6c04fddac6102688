-- ===== src/Json/Warning.antt =====
-- The warning about malformed error codes, over all the codes of a process.
use webhttp.Prelude.{
  true, false, List, [], ◌∷◌, ◌++◌, ◌≡◌, refl, map, if◌then◌else◌, Bytes, Bool-cases, inl, inr,
}
use webhttp.Json.{valid_error_code, checked_error_code, WarnOnce, warn, checked_error_code_warned}

-- the codes of a process in order: what goes into the envelopes, and the lines that are logged
abbrev pub check_all : (Bytes → Bytes) → List Bytes → WarnOnce → List Bytes × List Bytes
check_all text [] o = ([], [])
check_all text (code ∷ codes) o =
    let (checked, o', lines) = checked_error_code_warned text code o in
    let (rest, more) = check_all text codes o' in (checked ∷ rest, lines ++ more)

-- the line about the first malformed code, if there is one
abbrev pub first_line : (Bytes → Bytes) → List Bytes → List Bytes
first_line text [] = []
first_line text (code ∷ codes) =
    if valid_error_code code then first_line text codes else text code ∷ []

check_all_done :
    (text : Bytes → Bytes) (codes : List Bytes)
    → check_all text codes (record { done = true }) ≡ (map checked_error_code codes, [])
unfolding checked_error_code_warned warn
check_all_done text [] = refl
check_all_done text (code ∷ codes) = elim (Bool-cases (valid_error_code code)) [
  | inl valid ↦ rw (valid, check_all_done text codes) refl
  | inr malformed ↦ rw (malformed, check_all_done text codes) refl
]

-- Over any codes, in order: each is checked by itself, and one line is logged, about the first malformed
-- one, or none if there is no such code.
pub check_all_lem :
    (text : Bytes → Bytes) (codes : List Bytes)
    → check_all text codes (record { done = false })
      ≡ (map checked_error_code codes, first_line text codes)
unfolding checked_error_code_warned warn
check_all_lem text [] = refl
check_all_lem text (code ∷ codes) = elim (Bool-cases (valid_error_code code)) [
  | inl valid ↦ rw (valid, check_all_lem text codes) refl
  | inr malformed ↦ rw (malformed, check_all_done text codes) refl
]
