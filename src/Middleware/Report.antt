-- ===== src/Middleware/Report.antt =====
-- middleware.go: the options of Recoverer, and what it reports of a panic beside the response.
use webhttp.Prelude.{ℕ, not, List, [], ◌∷◌, ◌++◌, Option, none, some, if◌then◌else◌, Bytes}
use webhttp.Http.{Request, Response, Outcome, returned, panicked, ErrorResponder}
use webhttp.Json.{ErrorResponse}
use webhttp.Middleware.{
  Hook, enter, resume, wrote, internal_error, internal_error_msg, default_responder, recoverer,
}

-- The logger is named by a number, `none` for the default one. The hook is
-- that of `recoverer`.
pub record RecoverConfig : Type 0 where
  pub logger : Option ℕ
  pub hook : Option Hook
  pub responder : Option ErrorResponder

pub data RecoverOption : Type 0 where
  with_recover_logger : Option ℕ → RecoverOption
  with_panic_hook : Option Hook → RecoverOption
  with_recover_responder : Option ErrorResponder → RecoverOption

-- a nil hook or responder is ignored
abbrev apply_option : RecoverOption → RecoverConfig → RecoverConfig
apply_option (with_recover_logger l) c = record c { logger = l }
apply_option (with_panic_hook none) c = c
apply_option (with_panic_hook (some fn)) c = record c { hook = some fn }
apply_option (with_recover_responder none) c = c
apply_option (with_recover_responder (some fn)) c = record c { responder = some fn }

abbrev apply_options : List (Option RecoverOption) → RecoverConfig → RecoverConfig
apply_options [] c = c
apply_options (none ∷ opts) c = apply_options opts c
apply_options (some o ∷ opts) c = apply_options opts (apply_option o c)

abbrev pub recover_config : List (Option RecoverOption) → RecoverConfig
recover_config opts = apply_options opts (record { logger = none; hook = none; responder = none })

-- a call of the hook with the panic's value, and the log lines with the request's id
pub data RecoverEvent : Type 0 where
  panic_logged : ℕ → Bytes → RecoverEvent
  hook_called : ℕ → RecoverEvent
  hook_failed responder_failed : Bytes → RecoverEvent

abbrev hook_report : Bytes → Outcome → List RecoverEvent
hook_report id returned = []
hook_report id _ = hook_failed id ∷ []

abbrev fire_hook_report : Option Hook → ℕ → Bytes → List RecoverEvent
fire_hook_report none v id = []
fire_hook_report (some hook) v id = hook_called v ∷ hook_report id (hook v)

abbrev responder_report : Bytes → Outcome → List RecoverEvent
responder_report id returned = []
responder_report id _ = responder_failed id ∷ []

module _ (encode : ErrorResponse → Option Bytes) where
  -- what `recoverPanic` reports of a call that ended as `inner`, in order
  unfoldable recover_events : RecoverConfig → Request → Response × Outcome → List RecoverEvent
  recover_events c r (w, panicked v) =
      let answer = default_responder encode c.responder 500 internal_error internal_error_msg r w in
      panic_logged v r.request_id
      ∷ (fire_hook_report c.hook v r.request_id
          ++ (if not (wrote w) then responder_report r.request_id answer.1 else []))
  recover_events c r (w, _) = []

  -- Recoverer with its options: the response, and the report
  unfoldable recoverer_with :
      List (Option RecoverOption)
      → (Request → Response → Response × Outcome)
      → Request
      → Response
      → (Response × Outcome) × List RecoverEvent
  unfolding recover_events
  recoverer_with opts next r w =
      let c = recover_config opts in
      let w' = enter w in
      let (inner, end) = next r w' in
      (recoverer encode c.hook c.responder next r w, recover_events c r (resume w' inner, end))
