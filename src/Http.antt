-- ===== src/Http.antt =====
-- What the code uses of Go's net/http: the fields of a request, the server's ResponseWriter, and
-- handlers that may panic. It is the standard library's, so no file of the repository holds it.
use webhttp.Prelude.{
  ℕ, Bool, true, false, ◌&&◌, not, List, [], ◌∷◌, ◌++◌, Option, none, some, ◌==◌, within,
  if◌then◌else◌, Bytes, codes, all, length, ltb, is_nil, number_from,
}
use Prim.Native.Nat.{◌^◌}
use webhttp.Header.{Header, values}

pub record Request : Type 0 where
  pub method : Bytes
  -- `r.URL.Path`
  pub path : Bytes
  pub pattern : Bytes
  pub host : Bytes
  pub remote_addr : Bytes
  pub header : Header
  -- the id that WithRequestID stored in the context; empty if none
  pub request_id : Bytes

-- The ResponseWriter that a handler is given, over the server's: the header that handlers edit, the
-- final status and the header that went out with it once that is sent, the interim statuses, and the
-- body bytes that were written, refused ones included (see `is_whole`). `recorder` is what Wrote of
-- this writer gives, `none` where it has no such method.
pub record Response : Type 0 where
  pub header : Header
  pub status : Option ℕ
  pub sent : Header
  pub interim : List ℕ
  pub body : Bytes
  pub recorder : Option Bool

abbrev pub fresh : Response
fresh = record { header = []; status = none; sent = []; interim = []; body = []; recorder = none }

abbrev pub is_committed : Response → Bool
is_committed w = elim w.status [ none ↦ false | some _ ↦ true ]

-- a 1xx status other than 101 is interim
abbrev pub is_interim : ℕ → Bool
is_interim code = within 100 199 code && not (code == 101)

-- a call goes through the recorder, if there is one
abbrev pub through : Option Bool → Option Bool
through none = none
through (some b) = some true

-- a second final status is ignored, with a log line
unfoldable pub write_header : ℕ → Response → Response
write_header code w =
    let w' : Response = record w { recorder = through w.recorder } in
    if is_committed w
    then w'
    else if is_interim code
    then record w' { interim = w.interim ++ code ∷ [] }
    else record w' { status = some code; sent = w.header }

-- the first write sends an implicit 200
unfoldable pub write : Bytes → Response → Response
unfolding write_header
write b w = let w' = write_header 200 w in record w' { body = w'.body ++ b }

-- strconv.ParseInt in base 10, where the number is not negative
abbrev pub digits_value : Bytes → Option ℕ
digits_value s =
    if not (is_nil s) && all (within b'0' b'9') s && ltb (number_from 0 s) (2 ^ 63)
    then some (number_from 0 s)
    else none

abbrev pub parse_length : Bytes → Option ℕ
parse_length [] = none
parse_length (c ∷ s) =
    if c == b'+'
    then digits_value s
    else if c == b'-'
    then (if all (λ d. d == b'0') s then digits_value s else none)
    else digits_value (c ∷ s)

abbrev pub parse_first : List Bytes → Option ℕ
parse_first [] = none
parse_first (v ∷ vs) = parse_length v

-- the Content-Length that a header declares; the server drops a field that does not parse
unfoldable pub content_length : Header → Option ℕ
unfolding number_from
content_length h = parse_first (values (codes "Content-Length") h)

abbrev pub fits : Option ℕ → Bytes → Bool
fits none b = true
fits (some n) b = n == length b

-- Whether the client gets the body as it was written. The server refuses each write that makes the
-- bytes more than the length declared when the status was sent (http.ErrContentLength), and where they
-- are fewer at the end the response is cut short.
unfoldable pub is_whole : Response → Bool
unfolding content_length
is_whole w = fits (content_length w.sent) w.body

-- How a call of a handler ends: it returns, panics with http.ErrAbortHandler, or with another value.
pub data Outcome : Type 0 where
  returned aborted : Outcome
  panicked : ℕ → Outcome

abbrev pub Handler : Type 0
Handler = Request → Response → Response × Outcome

abbrev pub Middleware : Type 0
Middleware = Handler → Handler

-- json.go's ErrorResponder: the status, the code and the message, for the response of a request
abbrev pub ErrorResponder : Type 0
ErrorResponder = ℕ → Bytes → Bytes → Handler
