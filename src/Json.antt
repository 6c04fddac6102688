-- ===== src/Json.antt =====
-- json.go: JSON responses and the error envelope. The encoder, `json.Marshal`, is a parameter.
pub mod Envelope
pub mod Warning
mod Tests
use webhttp.Prelude.{
  ℕ, Bool, true, false, ◌&&◌, ◌||◌, List, [], ◌∷◌, Option, none, some, ◌==◌, within, if◌then◌else◌,
  is_nil, Bytes, codes, all,
}
use webhttp.Header.{Header, get, set}
use webhttp.Http.{Request, Response, write_header, write}

unfoldable pub json_headers : Response → Response
unfolding set get
json_headers w =
    let h = set (codes "Content-Type") (codes "application/json") w.header in
    record w {
      header =
          if is_nil (get (codes "X-Content-Type-Options") h)
          then set (codes "X-Content-Type-Options") (codes "nosniff") h
          else h;
    }

pub record ErrorResponse : Type 0 where
  pub error : Bytes
  pub code : Bytes
  pub request_id : Bytes

abbrev pub invalid_error_code : Bytes
invalid_error_code = codes "invalid_error_code"

unfoldable pub valid_error_code : Bytes → Bool
valid_error_code code = all (λ c. within b'a' b'z' c || within b'0' b'9' c || c == b'_') code

-- the warning that goes with a replacement, logged once, is left out
unfoldable pub checked_error_code : Bytes → Bytes
unfolding valid_error_code
checked_error_code code = if valid_error_code code then code else invalid_error_code

unfoldable pub error_envelope : Request → Bytes → Bytes → ErrorResponse
unfolding checked_error_code
error_envelope r code msg = record {
  error = msg;
  code = checked_error_code code;
  request_id = r.request_id;
}

-- `encode` is a value's JSON line, `none` where Marshal fails.
module _ {V : Type 0} (encode : V → Option Bytes) where
  unfoldable pub write_json_status : ℕ → V → Response → Response
  write_json_status code v w =
      let w' = write_header code (json_headers w) in
      elim (encode v) [ none ↦ w' | some body ↦ write body w' ]

  unfoldable pub write_json : V → Response → Response
  write_json v w = write_json_status 200 v w

module _ (encode : ErrorResponse → Option Bytes) where
  unfoldable pub write_error : Request → ℕ → Bytes → Bytes → Response → Response
  write_error r status code msg w = write_json_status encode status (error_envelope r code msg) w

  -- the body that RouteTimeout hands to http.TimeoutHandler
  unfoldable pub error_body_json : Request → Bytes → Bytes → Bytes
  error_body_json r code msg = elim (encode (error_envelope r code msg)) [
    | none ↦ codes "{\"error\":\"internal error\"}"
    | some body ↦ body
  ]

-- the acknowledgement `{"ok":true}`
pub record OkBody : Type 0 where
  pub ok : Bool

unfoldable pub write_ok : (OkBody → Option Bytes) → Response → Response
write_ok encode w = write_json encode (record { ok = true }) w

-- warnOnce: whether the line has been logged. A call gives the new state and what it logs.
pub record WarnOnce : Type 0 where
  pub done : Bool

unfoldable pub warn : Bytes → WarnOnce → WarnOnce × List Bytes
warn msg o = if o.done then (o, []) else (record { done = true }, msg ∷ [])

-- checkedErrorCode with its warning, `text` the line for a code
unfoldable pub checked_error_code_warned :
    (Bytes → Bytes) → Bytes → WarnOnce → Bytes × WarnOnce × List Bytes
unfolding warn checked_error_code
checked_error_code_warned text code o =
    if valid_error_code code
    then (code, o, [])
    else let (o', lines) = warn (text code) o in (checked_error_code code, o', lines)
