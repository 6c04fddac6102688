-- ===== src/RequestLog/Config.antt =====
-- reqlog.go: the options of the request log. A hook that panics gives `none` or `false`.
use webhttp.Prelude.{
  ℕ, ◌+◌, ◌≤◌, ◌<◌, Bool, true, false, not, List, [], ◌∷◌, Option, none, some, leb, ltb,
  if◌then◌else◌, is_nil, Bytes, has, insert, keep, arith,
}
use webhttp.Net.{Prefix}
use webhttp.Http.{Request}
use webhttp.RequestLog.Path.{template_path}
use webhttp.RequestLog.Labels.{RequestMetric}

-- slog.Level
pub data Level : Type 0 where
  debug info warn error : Level
  custom : ℕ → Level

abbrev pub default_max_logged_path : ℕ
default_max_logged_path = 512

pub record LogConfig : Type 0 where
  pub skip_paths : List Bytes
  pub skip_func : Option (Request → Bool)
  pub path_func : Option (Request → Option Bytes)
  pub record_metric : Option (RequestMetric → Bool)
  pub record_metric_req : Option (Request → ℕ → ℕ → Bool)
  pub record_route : Option (RequestMetric → Bool)
  pub log_level : Option (Request → ℕ → Option Level)
  pub client_ip_func : Option (Request → Option Bytes)
  pub client_ip_trusted : List Prefix
  pub max_logged_path : ℕ
  pub log_client_ip : Bool
  pub skip_upgrades : Bool

-- `none` is a nil function; an int below 1 is 0
pub data LogOption : Type 0 where
  with_skip_paths : List Bytes → LogOption
  with_skip_func : Option (Request → Bool) → LogOption
  with_skip_upgrades : Bool → LogOption
  with_path_func : Option (Request → Option Bytes) → LogOption
  with_template_paths_under : List Bytes → LogOption
  with_max_logged_path : ℕ → LogOption
  with_record_metric : Option (RequestMetric → Bool) → LogOption
  with_record_metric_request : Option (Request → ℕ → ℕ → Bool) → LogOption
  with_record_route_metric : Option (RequestMetric → Bool) → LogOption
  with_log_level : Option (Request → ℕ → Option Level) → LogOption
  with_client_ip : List Prefix → LogOption
  with_client_ip_func : Option (Request → Option Bytes) → LogOption

abbrev add_all : List Bytes → List Bytes → List Bytes
add_all [] set = set
add_all (p ∷ ps) set = add_all ps (insert p set)

unfoldable pub apply_option : LogOption → LogConfig → LogConfig
apply_option (with_skip_paths paths) c = record c { skip_paths = add_all paths c.skip_paths }
apply_option (with_skip_func fn) c = record c { skip_func = fn }
apply_option (with_skip_upgrades skip) c = record c { skip_upgrades = skip }
apply_option (with_path_func none) c = c
apply_option (with_path_func (some fn)) c = record c { path_func = some fn }
apply_option (with_template_paths_under prefixes) c =
    let kept = keep (λ p. not (is_nil p)) prefixes in
    if is_nil kept then c else record c { path_func = some (λ r. some (template_path r kept)) }
apply_option (with_max_logged_path n) c = if ltb 0 n then record c { max_logged_path = n } else c
apply_option (with_record_metric fn) c = record c {
  record_metric = fn;
  record_metric_req = none;
  record_route = none;
}
apply_option (with_record_metric_request none) c = c
apply_option (with_record_metric_request (some fn)) c = record c {
  record_metric_req = some fn;
  record_metric = none;
  record_route = none;
}
apply_option (with_record_route_metric none) c = c
apply_option (with_record_route_metric (some fn)) c = record c {
  record_route = some fn;
  record_metric = none;
  record_metric_req = none;
}
apply_option (with_log_level none) c = c
apply_option (with_log_level (some fn)) c = record c { log_level = some fn }
apply_option (with_client_ip trusted) c = record c {
  log_client_ip = true;
  client_ip_trusted = trusted;
  client_ip_func = none;
}
apply_option (with_client_ip_func none) c = c
apply_option (with_client_ip_func (some fn)) c = record c {
  log_client_ip = true;
  client_ip_func = some fn;
  client_ip_trusted = [];
}

unfoldable pub apply_options : List (Option LogOption) → LogConfig → LogConfig
unfolding apply_option
apply_options [] c = c
apply_options (none ∷ opts) c = apply_options opts c
apply_options (some o ∷ opts) c = apply_options opts (apply_option o c)

abbrev pub empty_config : LogConfig
empty_config = record {
  skip_paths = [];
  skip_func = none;
  path_func = none;
  record_metric = none;
  record_metric_req = none;
  record_route = none;
  log_level = none;
  client_ip_func = none;
  client_ip_trusted = [];
  max_logged_path = 0;
  log_client_ip = false;
  skip_upgrades = false;
}

unfoldable pub log_config : List (Option LogOption) → LogConfig
unfolding apply_options
log_config opts =
    let c = apply_options opts empty_config in
    if leb c.max_logged_path 0 then record c { max_logged_path = default_max_logged_path } else c

-- the level of a probe path by its status, info for any other
unfoldable pub probe_log_level : List Bytes → LogOption
probe_log_level paths = with_log_level (
    some (λ r status. some (
      if not (has r.path paths)
      then info
      else if leb 500 status
      then error
      else if leb 400 status
      then warn
      else debug)))

abbrev given {ℓ} : {A : Type ℓ} → Option A → ℕ
given none = 0
given (some a) = 1

-- how many metric hooks are set
abbrev pub metric_hooks : LogConfig → ℕ
metric_hooks c = given c.record_metric + (given c.record_metric_req + given c.record_route)

apply_option-hooks :
    (o : LogOption) (c : LogConfig) → metric_hooks c ≤ 1 → metric_hooks (apply_option o c) ≤ 1
unfolding apply_option
apply_option-hooks (with_skip_paths ps) c h = ground arith
apply_option-hooks (with_record_metric none) c h = ground arith
apply_option-hooks (with_template_paths_under ps) c h = ground arith
apply_option-hooks (with_max_logged_path n) c h = ground arith
apply_option-hooks (with_path_func none) c h = h
apply_option-hooks (with_path_func (some f)) c h = h
apply_option-hooks (with_record_metric (some fn)) c h = ground arith
apply_option-hooks (with_record_metric_request none) c h = h
apply_option-hooks (with_record_metric_request (some fn)) c h = ground arith
apply_option-hooks (with_record_route_metric none) c h = h
apply_option-hooks (with_record_route_metric (some fn)) c h = ground arith
apply_option-hooks (with_log_level none) c h = h
apply_option-hooks (with_log_level (some fn)) c h = h
apply_option-hooks (with_client_ip_func none) c h = h
apply_option-hooks (with_client_ip_func (some fn)) c h = h
apply_option-hooks (with_client_ip t) c h = h
apply_option-hooks (with_skip_func f) c h = h
apply_option-hooks (with_skip_upgrades b) c h = h

apply_options-hooks :
    (opts : List (Option LogOption)) (c : LogConfig)
    → metric_hooks c ≤ 1
    → metric_hooks (apply_options opts c) ≤ 1
unfolding apply_options
apply_options-hooks [] c h = h
apply_options-hooks (none ∷ opts) c h = apply_options-hooks opts c h
apply_options-hooks (some o ∷ opts) c h =
    apply_options-hooks opts (apply_option o c) (apply_option-hooks o c h)

-- Whatever the options and their order, at most one metric hook is set, and the length of a logged
-- path is bounded by a positive number.
pub log_config-hooks :
    (opts : List (Option LogOption))
    → (metric_hooks (log_config opts) ≤ 1) × (0 < (log_config opts).max_logged_path)
unfolding log_config
log_config-hooks opts = ground (arith, apply_options-hooks opts empty_config (omega arith))
