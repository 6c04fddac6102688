-- ===== src/Server/Run/Order.antt =====
-- The calls that Run makes, and what it returns.
use webhttp.Prelude.{
  ℕ, suc, ◌+◌, ◌<◌, Bool, true, false, not, ◌&&◌, ◌==◌, List, [], ◌∷◌, Option, none, some, ◌≡◌,
  if◌then◌else◌, All, arith,
}
use webhttp.Server.Run.{
  ServeEnd, server_closed, serve_failed, ShutdownEnd, shutdown_done, RunCall, pre_drain, shutdown,
  on_shutdown, serve_exit, RunConfig, run_server,
}

abbrev pub deadline_of : RunCall → ℕ
deadline_of (pre_drain d) = d
deadline_of (shutdown d) = d
deadline_of (on_shutdown d) = d
deadline_of (serve_exit d) = d

-- the order in which a shutdown goes
abbrev pub phase : RunCall → ℕ
phase (pre_drain d) = 1
phase (shutdown d) = 2
phase (on_shutdown d) = 3
phase (serve_exit d) = 4

-- Each call comes in a later phase than the one before it.
abbrev pub GoesOn : ℕ → List RunCall → Type 0
GoesOn n [] = Unit
GoesOn n (call ∷ calls) = (n < phase call) × GoesOn (phase call) calls

-- how many of the calls belong to the phase
abbrev pub calls_in : ℕ → List RunCall → ℕ
calls_in n [] = 0
calls_in n (call ∷ calls) = if phase call == n then suc (calls_in n calls) else calls_in n calls

abbrev pub once_if : Bool → ℕ
once_if true = 1
once_if false = 0

abbrev pub is_clean : ServeEnd → ShutdownEnd → Bool → Bool
is_clean server_closed shutdown_done cancelled = true
is_clean server_closed _ cancelled = not cancelled
is_clean (serve_failed e) _ cancelled = false

pub record IsOrderly (c : RunConfig) (has_on_shutdown cancelled : Bool) (now : ℕ)
    (served : ServeEnd) (shut : ShutdownEnd) (calls : List RunCall) (fine : Bool) : Type 0 where
  -- all the calls share one budget
  pub one_deadline : All (λ call. deadline_of call ≡ now + c.shutdown_grace) calls
  pub in_order : GoesOn 0 calls
  pub drains : calls_in 1 calls ≡ once_if (cancelled && c.has_pre_drain)
  pub shuts : calls_in 2 calls ≡ once_if cancelled
  pub tears_down : calls_in 3 calls ≡ once_if (cancelled && has_on_shutdown)
  pub runs_exit : calls_in 4 calls ≡ once_if (not cancelled && c.has_serve_exit)
  pub result : fine ≡ is_clean served shut cancelled

abbrev pub is_none {ℓ} : {A : Type ℓ} → Option A → Bool
is_none none = true
is_none (some a) = false

-- A cancelled Run calls the pre-drain hook once if it is set, the server's Shutdown once and the
-- teardown once if it is given, in this order, and not the exit hook; a Run whose Serve has ended
-- before calls the exit hook once if it is set, and nothing else; all calls of a run have the same
-- deadline. It returns no error exactly if Serve ended by the shutdown and, where it was cancelled, that was done in time.
pub run_server-IsOrderly :
    (c : RunConfig) (has_on_shutdown cancelled : Bool) (now : ℕ) (served : ServeEnd)
    (shut : ShutdownEnd)
    → let (calls, err) = run_server c has_on_shutdown cancelled now served shut in
      IsOrderly c has_on_shutdown cancelled now served shut calls (is_none err)
unfolding run_server
run_server-IsOrderly c has_on_shutdown cancelled now served shut = record {
  one_deadline = ground arith;
  in_order = ground arith;
  drains = ground arith;
  shuts = ground arith;
  tears_down = ground arith;
  runs_exit = ground arith;
  result = ground arith;
}
