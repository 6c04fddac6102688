-- ===== src/Json/Tests.antt =====
-- The law of the error envelope at a concrete code.
use webhttp.Prelude.{false, ◌≡◌, List, [], ◌∷◌, map, Bytes, codes}
use webhttp.Http.{Request}
use webhttp.Json.{error_envelope, checked_error_code}
use webhttp.Json.Envelope.{IsToken, error_envelope-code}
use webhttp.Json.Warning.{check_all, first_line, check_all_lem}

abbrev lookup_request : Request
lookup_request = record {
  method = codes "GET";
  path = codes "/";
  pattern = [];
  host = [];
  remote_addr = [];
  header = [];
  request_id = codes "id";
}

error_envelope-code_example :
    let e = error_envelope lookup_request (codes "Not Found") (codes "no such key") in
    IsToken e.code
    × (IsToken (codes "Not Found") → e.code ≡ codes "Not Found")
    × (¬ IsToken (codes "Not Found") → e.code ≡ codes "invalid_error_code")
    × (e.error ≡ codes "no such key")
    × (e.request_id ≡ codes "id")
error_envelope-code_example =
    error_envelope-code lookup_request (codes "Not Found") (codes "no such key")

abbrev some_codes : List Bytes
some_codes = codes "not_found" ∷ codes "Not Found" ∷ codes "no!" ∷ []

check_all_lem_example :
    check_all (λ code. code) some_codes (record { done = false })
    ≡ (map checked_error_code some_codes, first_line (λ code. code) some_codes)
check_all_lem_example = check_all_lem (λ code. code) some_codes
