-- ===== src/Middleware/Tests.antt =====
-- The laws of the middlewares at concrete handlers.
use webhttp.Prelude.{true, false, List, [], ◌∷◌, Option, none, some, ◌≡◌, ◌≢◌, refl, Bytes, codes}
use webhttp.Http.{Request, fresh, write, aborted, panicked, Handler, ErrorResponder, is_whole}
use webhttp.Header.{values}
use webhttp.Json.{ErrorResponse, write_error, write_json_status, json_headers, error_envelope}
use webhttp.Middleware.{
  Hook, enter, resume, fire_hook, chain, recoverer, no_store, security_headers,
}
use webhttp.Middleware.Order.{chain-eq-nested}
use webhttp.Gzip.Calls.{Call, writes, edits, direct_calls}
use webhttp.Middleware.Sends.{IsSettled, recoverer-IsSettled}
use webhttp.Middleware.Recovery.{IsRecovered, recoverer-IsRecovered, recoverer-ne-panicked}

abbrev error_text : ErrorResponse → Option Bytes
error_text e = some e.error

abbrev page_request : Request
page_request = record {
  method = codes "GET";
  path = codes "/";
  pattern = [];
  host = [];
  remote_addr = [];
  header = [];
  request_id = codes "id";
}

abbrev failing : Handler
failing r w = (w, panicked 7)

abbrev failing_late : Handler
failing_late r w = (write (codes "part") w, panicked 7)

chain-eq-nested_example :
    chain failing (some no_store ∷ none ∷ some (security_headers []) ∷ [])
    ≡ no_store (security_headers [] failing)
chain-eq-nested_example =
    chain-eq-nested failing (some no_store ∷ none ∷ some (security_headers []) ∷ [])

-- the hook and the responder panic too, the hook with http.ErrAbortHandler
abbrev bad_hook : Option Hook
bad_hook = some (λ v. aborted)

abbrev bad_responder : Option ErrorResponder
bad_responder = some (λ status code msg r w. (w, panicked 8))

-- a handler that has declared the length of its own body
abbrev failing_framed : Handler
failing_framed r w =
    (record w { header = (codes "Content-Length", codes "2" ∷ []) ∷ w.header }, panicked 7)

-- The envelope then does not reach the client whole; otherwise it does.
framing_runs :
    (is_whole (recoverer error_text bad_hook none failing_framed page_request fresh).0 ≡ false)
    × (is_whole (recoverer error_text bad_hook bad_responder failing page_request fresh).0 ≡ true)
unfolding recoverer is_whole write_error values fire_hook write_json_status write json_headers
    error_envelope
framing_runs = (refl, refl)

recoverer-IsRecovered_example :
    IsRecovered error_text page_request fresh
      (resume (enter fresh) (failing_framed page_request (enter fresh)).0)
      (panicked 7)
      (recoverer error_text bad_hook none failing_framed page_request fresh)
recoverer-IsRecovered_example =
    recoverer-IsRecovered error_text bad_hook failing_framed page_request fresh

recoverer-ne-panicked_example :
    ((recoverer error_text bad_hook bad_responder failing_late page_request fresh).1 ≢ panicked 7)
    × ((recoverer error_text bad_hook bad_responder failing_late page_request fresh).1 ≡ aborted
        → (failing_late page_request (enter fresh)).1 ≡ aborted)
recoverer-ne-panicked_example =
    recoverer-ne-panicked error_text bad_hook bad_responder failing_late page_request fresh 7

abbrev edits_then_writes : List Call
edits_then_writes = edits (λ h. h) ∷ (writes (codes "part") ∷ [])

recoverer-IsSettled_example : IsSettled error_text page_request fresh edits_then_writes (
    recoverer error_text bad_hook none
      (λ r w. (direct_calls edits_then_writes w, panicked 7))
      page_request
      fresh)
recoverer-IsSettled_example =
    recoverer-IsSettled error_text bad_hook page_request fresh edits_then_writes 7 refl
