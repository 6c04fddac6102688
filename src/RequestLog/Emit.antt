-- ===== src/RequestLog/Emit.antt =====
-- reqlog.go: the lines and the metric of one request. A hook that panics is reported, and costs its
-- own value alone.
pub mod Lines
use webhttp.Prelude.{
  ℕ, ◌/◌, Bool, true, false, ◌&&◌, not, List, [], ◌∷◌, ◌++◌, Option, none, some, if◌then◌else◌,
  is_nil, Bytes, codes,
}
use webhttp.Net.{Addr, AddrText}
use webhttp.Http.{Request}
use webhttp.ClientIp.{client_ip}
use webhttp.Recorder.{StatusRecorder, switched_protocol}
use webhttp.RequestLog.Path.{bound_logged_path, bound_logged_method}
use webhttp.RequestLog.Labels.{RequestMetric, route_metric_labels}
use webhttp.RequestLog.Config.{Level, info, LogConfig}

abbrev pub redacted_path_fallback : Bytes
redacted_path_fallback = codes "(path-redaction-failed)"

-- the "http" line
pub record AccessLine : Type 0 where
  pub level : Level
  pub method : Bytes
  pub path : Bytes
  pub status : ℕ
  pub duration_ms : ℕ
  pub request_id : Bytes
  pub client : Option Bytes

-- the error lines for a hook that panicked, with their attributes but the panic and its stack
pub data LogEvent : Type 0 where
  access : AccessLine → LogEvent
  path_failed : Bytes → LogEvent
  client_ip_failed : Bytes → Bytes → Bytes → LogEvent
  level_failed : Bytes → Bytes → Bytes → ℕ → LogEvent
  metric_failed : Bytes → Bytes → Bytes → ℕ → ℕ → LogEvent
  -- a call of the hook that is set
  metric : RequestMetric → LogEvent
  metric_request : ℕ → ℕ → LogEvent
  metric_route : RequestMetric → LogEvent

-- an empty path counts as no path
abbrev resolve_path_value : Bytes → Bytes
resolve_path_value p = if is_nil p then redacted_path_fallback else p

pub safe_logged_path : (Request → Option Bytes) → Request → Bytes → Bytes × List LogEvent
safe_logged_path fn r id = elim (fn r) [
  | some p ↦ (resolve_path_value p, [])
  | none ↦ (redacted_path_fallback, path_failed id ∷ [])
]

pub logged_path : LogConfig → Request → Bytes → Bytes → Bytes × List LogEvent
unfolding safe_logged_path
logged_path c r path id = elim c.path_func [
  | none ↦ (path, [])
  | some fn ↦ safe_logged_path fn r id
]

pub safe_log_level : LogConfig → Request → ℕ → Bytes → Bytes → Level × List LogEvent
safe_log_level c r status id path = elim c.log_level [
  | none ↦ (info, [])
  | some fn ↦ elim (fn r status) [
    | some level ↦ (level, [])
    | none ↦ (info, level_failed id (bound_logged_method r.method) path status ∷ [])
  ]
]

abbrev unless_failed : Bool → LogEvent → List LogEvent
unless_failed true e = []
unless_failed false e = e ∷ []

-- the metric, with the line of a hook that panicked; nothing without a hook
pub safe_record_metric : LogConfig → Request → Bytes → ℕ → ℕ → Bytes → List LogEvent
safe_record_metric c r path status d id =
    let failed = metric_failed id (bound_logged_method r.method) path status (d / 1_000_000) in
    elim c.record_route [
      | some fn ↦
          let (method, route) = route_metric_labels r in
          let m : RequestMetric = record {
            method = method;
            path = route;
            status = status;
            latency = d;
          } in
          metric_route m ∷ unless_failed (fn m) failed
      | none ↦ elim c.record_metric_req [
        | some fn ↦ metric_request status d ∷ unless_failed (fn r status d) failed
        | none ↦ elim c.record_metric [
          | none ↦ []
          | some fn ↦
              let m : RequestMetric = record {
                method = bound_logged_method r.method;
                path = path;
                status = status;
                latency = d;
              } in
              metric m ∷ unless_failed (fn m) failed
        ]
      ]
    ]

module _ (text : AddrText) (addr_string : Addr → Bytes) where
  -- `none` is a panic of the app's resolver
  pub resolve_client_ip : LogConfig → Request → Option Bytes
  resolve_client_ip c r = elim c.client_ip_func [
    | some fn ↦ fn r
    | none ↦ some (client_ip text addr_string r c.client_ip_trusted)
  ]

  pub safe_client_ip : LogConfig → Request → Bytes → Bytes → Option Bytes × List LogEvent
  safe_client_ip c r id path =
      if not c.log_client_ip then (none, []) else elim (resolve_client_ip c r) [
        | some ip ↦ (some ip, [])
        | none ↦ (none, client_ip_failed id (bound_logged_method r.method) path ∷ [])
      ]

  -- `d` is the time since the start of the request, in nanoseconds.
  pub emit_access_log : LogConfig → StatusRecorder → Request → Bytes → Bytes → ℕ → List LogEvent
  emit_access_log c rec r path id d =
      if c.skip_upgrades && switched_protocol rec
      then []
      else let (resolved, e1) = logged_path c r path id in
        let bounded = bound_logged_path resolved c.max_logged_path in
        let (ip, e2) = safe_client_ip c r id bounded in
        let (level, e3) = safe_log_level c r rec.status id bounded in
        let line : AccessLine = record {
          level = level;
          method = bound_logged_method r.method;
          path = bounded;
          status = rec.status;
          duration_ms = d / 1_000_000;
          request_id = id;
          client = ip;
        } in
        e1 ++ (e2 ++ (e3 ++ (access line ∷ safe_record_metric c r bounded rec.status d id)))
