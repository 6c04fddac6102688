-- ===== src/Server/Run.antt =====
-- server.go: Run, over what its environment does: which channel the select takes, how Serve and
-- Shutdown return. The result is the calls that it makes, in order, each with its deadline, and the
-- error that it returns.
pub mod Order
use webhttp.Prelude.{
  ℕ, ◌+◌, Bool, true, false, ◌&&◌, not, List, [], ◌∷◌, ◌++◌, Option, none, some, if◌then◌else◌,
}
use webhttp.Server.Config.{default_shutdown_grace}

-- how Serve returns: http.ErrServerClosed, or another error
pub data ServeEnd : Type 0 where
  server_closed : ServeEnd
  serve_failed : ℕ → ServeEnd

-- how Shutdown returns
pub data ShutdownEnd : Type 0 where
  shutdown_done shutdown_late : ShutdownEnd
  shutdown_failed : ℕ → ShutdownEnd

pub data RunError : Type 0 where
  serve_error : ℕ → RunError
  grace_expired : RunError
  shutdown_error : ℕ → RunError

-- a call, with the deadline of its context
pub data RunCall : Type 0 where
  pre_drain shutdown on_shutdown serve_exit : ℕ → RunCall

-- which hooks are set
pub record RunConfig : Type 0 where
  pub has_pre_drain : Bool
  pub has_serve_exit : Bool
  pub shutdown_grace : ℕ

pub data RunOption : Type 0 where
  with_shutdown_grace : ℕ → RunOption
  with_pre_drain with_serve_exit : Bool → RunOption

apply_option : RunOption → RunConfig → RunConfig
apply_option (with_shutdown_grace d) c = record c { shutdown_grace = d }
apply_option (with_pre_drain set) c = record c { has_pre_drain = set }
apply_option (with_serve_exit set) c = record c { has_serve_exit = set }

unfoldable pub run_config : List (Option RunOption) → RunConfig → RunConfig
unfolding apply_option
run_config [] c = c
run_config (none ∷ opts) c = run_config opts c
run_config (some o ∷ opts) c = run_config opts (apply_option o c)

abbrev pub default_run_config : RunConfig
default_run_config = record {
  has_pre_drain = false;
  has_serve_exit = false;
  shutdown_grace = default_shutdown_grace;
}

abbrev serve_result : ServeEnd → Option RunError
serve_result server_closed = none
serve_result (serve_failed e) = some (serve_error e)

unfoldable pub grace_expiry_error : ShutdownEnd → Option RunError
grace_expiry_error shutdown_done = none
grace_expiry_error shutdown_late = some grace_expired
grace_expiry_error (shutdown_failed e) = some (shutdown_error e)

abbrev call_if : Bool → RunCall → List RunCall
call_if set call = if set then call ∷ [] else []

-- `err := <-serveErr` after the shutdown
abbrev serve_first : Option RunError → Option RunError → Option RunError
serve_first none later = later
serve_first (some e) later = some e

-- `cancelled`: the select took ctx.Done, at the time `now`; otherwise Serve returned at that time.
unfoldable pub run_server :
    RunConfig → Bool → Bool → ℕ → ServeEnd → ShutdownEnd → List RunCall × Option RunError
unfolding grace_expiry_error
run_server c has_on_shutdown cancelled now served shut =
    let deadline = now + c.shutdown_grace in
    if not cancelled
    then (call_if c.has_serve_exit (serve_exit deadline), serve_result served)
    else (
      call_if c.has_pre_drain (pre_drain deadline)
          ++ (shutdown deadline ∷ call_if has_on_shutdown (on_shutdown deadline)),
      serve_first (serve_result served) (grace_expiry_error shut),
    )

-- which channel woke the first select of AwaitDone, and whether `done` is closed at the second
pub data Woken : Type 0 where
  by_done : Woken
  by_context : Bool → Woken

unfoldable pub await_done : Woken → Bool
await_done by_done = true
await_done (by_context done_ready) = done_ready

-- `is` is errors.Is; `none` is nil, and `cause` is what context.Cause gives.
unfoldable pub caused_by_cancellation : (ℕ → ℕ → Bool) → Option (Option ℕ) → ℕ → Option ℕ → Bool
caused_by_cancellation is (some (some ctx_err)) cause (some err) =
    if is err ctx_err then true else is err cause
caused_by_cancellation is _ cause _ = false
