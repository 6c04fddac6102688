-- ===== src/Middleware.antt =====
-- middleware.go: the chain, panic recovery and the response headers.
pub mod Order
pub mod Recovery
pub mod Sends
pub mod Report
mod Tests
use mathlib.Core.List.{reverse}
use webhttp.Prelude.{
  ℕ, Bool, true, false, ◌&&◌, ◌||◌, ◌==◌, not, List, [], ◌∷◌, Option, none, some, if◌then◌else◌,
  is_nil, Bytes, codes,
}
use webhttp.Header.{Header, get, set}
use webhttp.Http.{
  Request, Response, write_header, Outcome, returned, aborted, panicked, Handler, Middleware,
  ErrorResponder,
}
use webhttp.Json.{ErrorResponse, write_error, json_headers, error_body_json}

-- the loop of `Chain`, over the middlewares from the last; a nil one is skipped
wrap_all : Handler → List (Option Middleware) → Handler
wrap_all h [] = h
wrap_all h (none ∷ mw) = wrap_all h mw
wrap_all h (some m ∷ mw) = wrap_all (m h) mw

unfoldable pub chain : Handler → List (Option Middleware) → Handler
unfolding wrap_all
chain h mw = wrap_all h (reverse mw)

-- A panic hook, given the panic's value: it returns, or panics itself. The stack is left out.
abbrev pub Hook : Type 0
Hook = ℕ → Outcome

-- `committed.Wrote()`
abbrev pub wrote : Response → Bool
wrote w = elim w.recorder [ some true ↦ true | _ ↦ false ]

-- the writer that the wrapped handler gets: one that is no committedResponse comes in a new recorder
abbrev pub enter : Response → Response
enter w = elim w.recorder [ none ↦ record w { recorder = some false } | some _ ↦ w ]

-- behind the handler: the recorder also has what it had before
abbrev pub resume : Response → Response → Response
resume before w = record w { recorder = some (wrote before || wrote w) }

-- what the caller has: its own writer again
abbrev pub leave : Response → Response → Response
leave before w = record w { recorder = elim before.recorder [ none ↦ none | some _ ↦ w.recorder ] }

abbrev pub internal_error : Bytes
internal_error = codes "internal_error"

abbrev pub internal_error_msg : Bytes
internal_error_msg = codes "internal server error"

-- the deferred function of `fireHook`: whatever the panic's value, it is logged and swallowed
abbrev swallow : Outcome → Outcome
swallow returned = returned
swallow aborted = returned
swallow (panicked v) = returned

unfoldable pub fire_hook : Option Hook → ℕ → Outcome
fire_hook none v = returned
fire_hook (some hook) v = swallow (hook v)

module _ (encode : ErrorResponse → Option Bytes) where
  abbrev pub default_responder : Option ErrorResponder → ErrorResponder
  default_responder none = λ status code msg r w. (write_error encode r status code msg w, returned)
  default_responder (some fn) = fn

  -- the deferred function of `writeRecoverResponse`, its log line left out: a panic of the responder is
  -- swallowed, and the default 500 is written unless something was sent
  after_responder : Request → Response × Outcome → Response × Outcome
  after_responder r (w, returned) = (w, returned)
  after_responder r (w, _) = (
    if not (wrote w) then write_error encode r 500 internal_error internal_error_msg w else w,
    returned,
  )

  write_recover_response : Option ErrorResponder → Request → Response → Response × Outcome
  unfolding after_responder
  write_recover_response fn r w =
      after_responder r (default_responder fn 500 internal_error internal_error_msg r w)

  -- `recoverPanic`, without its log line; a panic that the call of the hook lets through ends it
  pub recover_panic :
      Option Hook → Option ErrorResponder → Request → Response × Outcome → Response × Outcome
  unfolding write_recover_response
  recover_panic hook fn r (w, returned) = (w, returned)
  recover_panic hook fn r (w, aborted) = (w, aborted)
  recover_panic hook fn r (w, panicked v) = elim (fire_hook hook v) [
    | returned ↦ if not (wrote w) then write_recover_response fn r w else (w, returned)
    | aborted ↦ (w, aborted)
    | panicked u ↦ (w, panicked u)
  ]

  unfoldable pub recoverer : Option Hook → Option ErrorResponder → Middleware
  unfolding recover_panic
  recoverer hook fn next r w =
      let w' = enter w in
      let (inner, end) = next r w' in
      let (out, end') = recover_panic hook fn r (resume w' inner, end) in (leave w out, end')

pub record SecurityConfig : Type 0 where
  pub frame_options : Bytes
  pub referrer_policy : Bytes
  pub csp : Bytes
  pub permissions_policy : Bytes
  pub coop : Bytes
  pub hsts : Bytes

abbrev pub default_security : SecurityConfig
default_security = record {
  frame_options = codes "DENY";
  referrer_policy = codes "strict-origin-when-cross-origin";
  csp = [];
  permissions_policy = [];
  coop = [];
  hsts = [];
}

pub data SecurityOption : Type 0 where
  with_csp with_frame_options with_referrer_policy with_permissions_policy with_coop :
      Bytes → SecurityOption
  -- WithHSTS with the header that it has rendered
  with_hsts_header : Bytes → SecurityOption

abbrev apply_option : SecurityOption → SecurityConfig → SecurityConfig
apply_option (with_csp policy) c = record c { csp = policy }
apply_option (with_frame_options v) c = record c { frame_options = v }
apply_option (with_referrer_policy v) c = record c { referrer_policy = v }
apply_option (with_permissions_policy v) c = record c { permissions_policy = v }
apply_option (with_coop v) c = record c { coop = v }
apply_option (with_hsts_header v) c = record c { hsts = v }

-- nil options are skipped
abbrev apply_options : List (Option SecurityOption) → SecurityConfig → SecurityConfig
apply_options [] c = c
apply_options (none ∷ opts) c = apply_options opts c
apply_options (some o ∷ opts) c = apply_options opts (apply_option o c)

unfoldable pub set_if_non_empty : Bytes → Bytes → Header → Header
unfolding set
set_if_non_empty key val h = if not (is_nil val) then set key val h else h

unfoldable pub security_headers : List (Option SecurityOption) → Middleware
unfolding set_if_non_empty
security_headers opts next r w =
    let c = apply_options opts default_security in
    let h0 = set (codes "X-Content-Type-Options") (codes "nosniff") w.header in
    let h1 = set_if_non_empty (codes "X-Frame-Options") c.frame_options h0 in
    let h2 = set_if_non_empty (codes "Referrer-Policy") c.referrer_policy h1 in
    let h3 = set_if_non_empty (codes "Content-Security-Policy") c.csp h2 in
    let h4 = set_if_non_empty (codes "Permissions-Policy") c.permissions_policy h3 in
    let h5 = set_if_non_empty (codes "Cross-Origin-Opener-Policy") c.coop h4 in
    let h6 = set_if_non_empty (codes "Strict-Transport-Security") c.hsts h5 in
    next r (record w { header = h6 })

unfoldable pub no_store : Middleware
no_store next r w =
    next r (record w { header = set (codes "Cache-Control") (codes "no-store") w.header })

module _ (encode : ErrorResponse → Option Bytes) where
  -- jsonTimeoutWriter's WriteHeader: a 503 without a type is labelled as JSON
  unfoldable pub json_timeout_write_header : ℕ → Response → Response
  unfolding json_headers
  json_timeout_write_header code w =
      let w' : Response =
        if code == 503 && is_nil (get (codes "Content-Type") w.header) then json_headers w else w in
      write_header code w'

  -- `timeout_handler` is http.TimeoutHandler on the labelling writer, given the handler, the duration
  -- and the body of the 503; a duration below 1 is 0.
  unfoldable pub route_timeout : (Handler → ℕ → Bytes → Handler) → Handler → ℕ → Bytes → Handler
  route_timeout timeout_handler h d msg r w =
      if d == 0
      then h r w
      else timeout_handler h d
          (error_body_json encode r (codes "timeout")
            (if is_nil msg then codes "request timed out" else msg))
          r w
