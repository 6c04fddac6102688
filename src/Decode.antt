-- ===== src/Decode.antt =====
-- prelude.go: request bodies as JSON. A decoder over a body of at most `max` bytes is a parameter: what
-- each of its two Decode calls returns.
use webhttp.Prelude.{ℕ, Option, none, some, Bytes, codes}
use webhttp.Http.{Request, Response}
use webhttp.Json.{ErrorResponse, write_error}

-- how a Decode call ends: with a value and the input behind it, at the end of the input, past the size
-- limit, or in any other error
pub data Decoded (V I : Type 0) : Type 0 where
  decoded : V → I → Decoded V I
  end_of_input too_large : Decoded V I
  malformed : ℕ → Decoded V I

pub data DecodeError : Type 0 where
  io_eof max_bytes_error trailing_data : DecodeError
  other_error : ℕ → DecodeError

pub data DecodeResult (V : Type 0) : Type 0 where
  value : V → DecodeResult V
  failed : DecodeError → DecodeResult V

abbrev pub max_json_body : ℕ
max_json_body = 1_048_576

-- `limit` is LimitBody with json.NewDecoder: the decoder's input for a body and a limit.
module _ {V I : Type 0} (limit : ℕ → Bytes → I) (decode : I → Decoded V I) where
  -- the second Decode, which has to find the end of the body
  after_value : V → Decoded V I → DecodeResult V
  after_value v end_of_input = value v
  after_value v (decoded extra rest) = failed trailing_data
  after_value v too_large = failed max_bytes_error
  after_value v (malformed e) = failed (other_error e)

  after_first : Decoded V I → DecodeResult V
  unfolding after_value
  after_first (decoded v rest) = after_value v (decode rest)
  after_first end_of_input = failed io_eof
  after_first too_large = failed max_bytes_error
  after_first (malformed e) = failed (other_error e)

  unfoldable pub decode_json_into : ℕ → Bytes → DecodeResult V
  unfolding after_first
  decode_json_into max_bytes body = after_first (decode (limit max_bytes body))

  abbrev first_value : Decoded V I → Option V
  first_value (decoded v rest) = some v
  first_value _ = none

  -- the leading value, whatever follows it
  unfoldable pub decode_body_optional : Bytes → Option V
  decode_body_optional body = first_value (decode (limit max_json_body body))

  module _ (encode : ErrorResponse → Option Bytes) where
    abbrev answer : Request → Bytes → Response → DecodeResult V → Option V × Response
    answer r err_msg w (value v) = (some v, w)
    answer r err_msg w (failed e) = (none, write_error encode r 400 (codes "bad_request") err_msg w)

    -- `none` is `false`
    unfoldable pub decode_body : Request → Bytes → Bytes → Response → Option V × Response
    unfolding decode_json_into
    decode_body r body err_msg w = answer r err_msg w (decode_json_into max_json_body body)
