-- ===== src/RequestLog/Emit/Lines.antt =====
-- The access lines and the calls of metric hooks among the events of one request.
use webhttp.Prelude.{
  ℕ, ◌+◌, ◌≤◌, true, false, ◌&&◌, List, [], ◌∷◌, ◌++◌, ◌≡◌, refl, ap, Bytes, length, arith,
  Bool-cases, inl, inr, ◌⊎◌, Option, none, some, ◌∙◌,
}
use webhttp.Net.{Addr, AddrText}
use webhttp.Http.{Request}
use webhttp.Recorder.{StatusRecorder, switched_protocol}
use webhttp.RequestLog.Path.{bound_logged_path, bound_logged_method}
use webhttp.RequestLog.Path.Bounds.{length-bound_logged}
use webhttp.RequestLog.Config.{LogConfig, metric_hooks}
use webhttp.RequestLog.Emit.{
  AccessLine, LogEvent, access, metric, metric_request, metric_route, logged_path, safe_log_level,
  safe_record_metric, safe_client_ip, emit_access_log,
}

abbrev pub access_lines : List LogEvent → List AccessLine
access_lines [] = []
access_lines (access line ∷ es) = line ∷ access_lines es
access_lines (_ ∷ es) = access_lines es

-- the three hooks that an option can set
pub data Hook : Type 0 where
  plain by_request by_route : Hook

-- a call of a hook, with the status and the latency that it is given
pub record HookCall : Type 0 where
  pub hook : Hook
  pub status : ℕ
  pub latency : ℕ

abbrev pub hook_calls : List LogEvent → List HookCall
hook_calls [] = []
hook_calls (metric m ∷ es) =
    record { hook = plain; status = m.status; latency = m.latency } ∷ hook_calls es
hook_calls (metric_request status d ∷ es) =
    record { hook = by_request; status = status; latency = d } ∷ hook_calls es
hook_calls (metric_route m ∷ es) =
    record { hook = by_route; status = m.status; latency = m.latency } ∷ hook_calls es
hook_calls (_ ∷ es) = hook_calls es

abbrev pub call_of {ℓ} : {A : Type ℓ} → Option A → HookCall → List HookCall
call_of none call = []
call_of (some fn) call = call ∷ []

-- one call for each hook that is set, by the configuration alone
abbrev pub expected_calls : LogConfig → ℕ → ℕ → List HookCall
expected_calls c status d =
    call_of c.record_metric (record { hook = plain; status = status; latency = d })
    ++ (call_of c.record_metric_req (record { hook = by_request; status = status; latency = d })
        ++ call_of c.record_route (record { hook = by_route; status = status; latency = d }))

access_lines-append :
    (es fs : List LogEvent) → access_lines (es ++ fs) ≡ access_lines es ++ access_lines fs
access_lines-append [] fs = refl
access_lines-append (e ∷ es) fs = ground (arith, access_lines-append es fs)

hook_calls-append : (es fs : List LogEvent) → hook_calls (es ++ fs) ≡ hook_calls es ++ hook_calls fs
hook_calls-append [] fs = refl
hook_calls-append (e ∷ es) fs = ground (arith, hook_calls-append es fs)

-- lines about hooks, and nothing else
record IsQuiet (es : List LogEvent) : Type 0 where
  no_access : access_lines es ≡ []
  no_metric : hook_calls es ≡ []

logged_path-IsQuiet :
    (c : LogConfig) (r : Request) (path id : Bytes) → IsQuiet (logged_path c r path id).1
unfolding logged_path
logged_path-IsQuiet c r path id = record { no_access = ground arith; no_metric = ground arith }

safe_log_level-IsQuiet :
    (c : LogConfig) (r : Request) (status : ℕ) (id path : Bytes)
    → IsQuiet (safe_log_level c r status id path).1
unfolding safe_log_level
safe_log_level-IsQuiet c r status id path = record {
  no_access = ground arith;
  no_metric = ground arith;
}

safe_client_ip-IsQuiet :
    (text : AddrText) (addr_string : Addr → Bytes) (c : LogConfig) (r : Request) (id path : Bytes)
    → IsQuiet (safe_client_ip text addr_string c r id path).1
unfolding safe_client_ip
safe_client_ip-IsQuiet text addr_string c r id path = record {
  no_access = ground arith;
  no_metric = ground arith;
}

record Meters (c : LogConfig) (status d : ℕ) (es : List LogEvent) : Type 0 where
  no_access : access_lines es ≡ []
  set_hook : hook_calls es ≡ expected_calls c status d

safe_record_metric-Meters :
    (c : LogConfig) (r : Request) (path : Bytes) (status d : ℕ) (id : Bytes)
    → metric_hooks c ≤ 1
    → Meters c status d (safe_record_metric c r path status d id)
unfolding safe_record_metric
safe_record_metric-Meters c r path status d id h = record {
  no_access = ground arith;
  set_hook = ground arith;
}

-- What is logged of a request that was served, with the recorder's state at the end.
pub record IsLogged (c : LogConfig) (rec : StatusRecorder) (r : Request) (id : Bytes) (d : ℕ)
    (es : List LogEvent) : Type 0 where
  pub line : AccessLine
  pub only : access_lines es ≡ line ∷ []
  pub status : line.status ≡ rec.status
  pub request_id : line.request_id ≡ id
  pub short_method : length line.method ≤ 24
  pub same_method : length r.method ≤ 24 → line.method ≡ r.method
  pub short_path : length line.path ≤ c.max_logged_path + 14
  pub set_hook : hook_calls es ≡ expected_calls c rec.status d

bound_logged_method-fits : (m : Bytes) → length m ≤ 24 → bound_logged_method m ≡ m
unfolding bound_logged_method
bound_logged_method-fits m h = ground arith

emits :
    (c : LogConfig) (rec : StatusRecorder) (r : Request) (id : Bytes) (d : ℕ) (line : AccessLine)
    (e1 e2 e3 ms : List LogEvent)
    → IsQuiet e1
    → IsQuiet e2
    → IsQuiet e3
    → Meters c rec.status d ms
    → line.status ≡ rec.status
    → line.request_id ≡ id
    → line.method ≡ bound_logged_method r.method
    → length line.path ≤ c.max_logged_path + 14
    → IsLogged c rec r id d (e1 ++ (e2 ++ (e3 ++ (access line ∷ ms))))
emits c rec r id d line e1 e2 e3 ms q1 q2 q3 m status request_id method short = record {
  line = line;
  only =
      rw
        (
          access_lines-append, q1.no_access, access_lines-append, q2.no_access, access_lines-append,
          q3.no_access,
        )
        (ap (◌∷◌ line) m.no_access);
  status = status;
  request_id = request_id;
  short_method = rw method (length-bound_logged [] r.method 0).1;
  same_method = λ fits. method ∙ bound_logged_method-fits r.method fits;
  short_path = short;
  set_hook =
      rw
        (
          hook_calls-append, q1.no_metric, hook_calls-append, q2.no_metric, hook_calls-append,
          q3.no_metric,
        )
        m.set_hook;
}

module _ (text : AddrText) (addr_string : Addr → Bytes) where
  -- With at most one metric hook set: a request is logged in exactly one access line, with the recorded
  -- status, its id, a path of at most the configured length and 14 bytes, and a method of at most 24
  -- bytes, which is the request's own where that fits; and the one metric hook that is set, and no
  -- other, is called, once, with the recorded status and the duration: whichever hooks panic. A connection that switched protocols is left out where that is configured.
  pub emit_access_log-IsLogged :
      (c : LogConfig) (rec : StatusRecorder) (r : Request) (path id : Bytes) (d : ℕ)
      → metric_hooks c ≤ 1
      → (c.skip_upgrades && switched_protocol rec ≡ true)
          × (emit_access_log text addr_string c rec r path id d ≡ [])
        ⊎ (c.skip_upgrades && switched_protocol rec ≡ false)
          × IsLogged c rec r id d (emit_access_log text addr_string c rec r path id d)
  unfolding emit_access_log
  emit_access_log-IsLogged c rec r path id d h =
      elim (Bool-cases (c.skip_upgrades && switched_protocol rec)) [
        | inl skip ↦ rw skip (inl (refl, refl))
        | inr logged ↦
            let resolved = (logged_path c r path id).0 in
            let bounded = bound_logged_path resolved c.max_logged_path in
            rw logged (
              inr (
                refl,
                emits c rec r id d _ _ _ _ _ (logged_path-IsQuiet c r path id)
                    (safe_client_ip-IsQuiet text addr_string c r id bounded)
                    (safe_log_level-IsQuiet c r rec.status id bounded)
                    (safe_record_metric-Meters c r bounded rec.status d id h) refl refl refl
                    (length-bound_logged resolved r.method c.max_logged_path).0,
              ))
      ]
