-- ===== src/RequestLog/Tests.antt =====
-- Runs of the request log, and its laws at concrete requests.
use webhttp.Prelude.{
  ◌≤◌, ◌<◌, ◌&&◌, true, false, List, [], ◌∷◌, ◌++◌, ◌≡◌, ◌⊎◌, inr, refl, Option, none, some, Bytes,
  codes, if◌then◌else◌, leb, length, arith, has,
}
use webhttp.Header.{get}
use webhttp.Net.{Addr, AddrText}
use webhttp.Http.{Request, Response, fresh, panicked, write_header, Outcome}
use webhttp.Http
use webhttp.Recorder.{Op, StatusRecorder, switched_protocol}
use webhttp.RequestLog.Id.{valid_request_id}
use webhttp.RequestLog.Path.{
  bound_logged_path, bound_logged_method, template_path, truncated_path_marker, rune_cut,
  longest_prefix,
}
use webhttp.RequestLog.Path.Runes.{concat, fitting, bound_logged_path-runes}
use webhttp.RequestLog.Path.Template.{IsTemplate, template_path-IsTemplate}
use webhttp.RequestLog.Labels.{
  route_metric_labels, metric_label_other, known_methods, path_labels, route_metric_labels-listed,
}
use webhttp.RequestLog.Config.{
  LogOption, with_record_metric, with_record_route_metric, with_path_func, log_config, metric_hooks,
  log_config-hooks,
}
use webhttp.RequestLog.Emit.{emit_access_log}
use webhttp.RequestLog.Emit.Lines.{IsLogged, emit_access_log-IsLogged}
use webhttp.RequestLog.Serve.{Traced, header_request_id, chosen_id, request_logger}
use webhttp.RequestLog.Serve.Ids.{IsCorrelated, request_logger-IsCorrelated}

-- "/é/x" in UTF-8
abbrev accented : List Bytes
accented = codes "/" ∷ ((0xc3 ∷ (0xa9 ∷ [])) ∷ (codes "/" ∷ (codes "x" ∷ [])))

path_runs :
    (bound_logged_path (concat accented) 2 ≡ codes "/" ++ truncated_path_marker)
    × (bound_logged_path (concat accented) 3 ≡ concat (fitting 3 accented) ++ truncated_path_marker)
    × (bound_logged_method (codes "PROPFIND") ≡ codes "PROPFIND")
unfolding bound_logged_path bound_logged_method rune_cut
path_runs = (refl, refl, refl)

bound_logged_path-runes_example : bound_logged_path (concat accented) 2 ≡ (
    if leb (length (concat accented)) 2
    then concat accented
    else concat (fitting 2 accented) ++ truncated_path_marker)
bound_logged_path-runes_example =
    bound_logged_path-runes accented 2
      ((refl, refl), ((refl, refl), ((refl, refl), ((refl, refl), tt))))

abbrev share_request : Request
share_request = record {
  method = codes "BREW";
  path = codes "/share/secret";
  pattern = codes "GET /share/{token}";
  host = [];
  remote_addr = codes "10.0.0.1:9";
  header = (codes "X-Request-Id", codes "abc-1" ∷ []) ∷ [];
  request_id = [];
}

template_run :
    template_path share_request (codes "/" ∷ codes "/share/" ∷ []) ≡ codes "/share/{token}"
unfolding template_path longest_prefix
template_run = refl

template_path-IsTemplate_example :
    IsTemplate share_request
      (codes "/share/" ∷ [])
      (template_path share_request (codes "/share/" ∷ []))
template_path-IsTemplate_example = template_path-IsTemplate share_request (codes "/share/" ∷ [])

listed_pattern : has share_request.pattern (codes "GET /share/{token}" ∷ []) ≡ true
listed_pattern = refl

route_metric_labels-listed_example :
    (has (route_metric_labels share_request).0 (metric_label_other ∷ known_methods) ≡ true)
    × (has (route_metric_labels share_request).1 (path_labels (codes "GET /share/{token}" ∷ []))
        ≡ true)
route_metric_labels-listed_example =
    route_metric_labels-listed share_request (codes "GET /share/{token}" ∷ []) (inr listed_pattern)

abbrev hooks : List (Option LogOption)
hooks =
    some (with_record_metric (some (λ m. true)))
    ∷ (none
        ∷ (some (with_record_route_metric (some (λ m. false)))
            ∷ (some (with_path_func (some (λ r. none))) ∷ [])))

log_config-hooks_example :
    (metric_hooks (log_config hooks) ≤ 1) × (0 < (log_config hooks).max_logged_path)
log_config-hooks_example = log_config-hooks hooks

abbrev no_addresses : AddrText
no_addresses = record {
  parse_addr = λ s. none;
  parse_addr_port = λ s. none;
  parse_prefix = λ s. none;
  is_global_unicast = λ ip. false;
  is_private = λ ip. false;
}

abbrev print_none : Addr → Bytes
print_none ip = codes "invalid IP"

abbrev failed_recorder : StatusRecorder
failed_recorder = record { status = 500; wrote_header = true; hijacked_bare = false }

emit_access_log-IsLogged_example :
    let c = log_config hooks in
    let es =
      emit_access_log no_addresses print_none c failed_recorder share_request share_request.path
        (codes "abc-1")
        7 in
    (c.skip_upgrades && switched_protocol failed_recorder ≡ true) × (es ≡ [])
    ⊎ (c.skip_upgrades && switched_protocol failed_recorder ≡ false)
      × IsLogged c failed_recorder share_request (codes "abc-1") 7 es
emit_access_log-IsLogged_example =
    emit_access_log-IsLogged no_addresses print_none (log_config hooks) failed_recorder
      share_request share_request.path (codes "abc-1") 7 (log_config-hooks hooks).0

abbrev panicking : Traced
panicking = record {
  serve = λ r w. (Http.write_header 500 w, panicked 7);
  calls = λ r w. Op.write_header 500 ∷ [];
  route = λ r w. codes "GET /share/{token}";
}

abbrev zero_random : Bytes
zero_random =
    0 ∷ (0 ∷ (0 ∷ (0 ∷ (0 ∷ (0 ∷ (0 ∷ (0 ∷ (0 ∷ (0 ∷ (0 ∷ (0 ∷ (0 ∷ (0 ∷ (0 ∷ (0 ∷ [])))))))))))))))

request_logger-IsCorrelated_example :
    (valid_request_id (chosen_id zero_random share_request) ≡ true)
    × ((valid_request_id (get header_request_id share_request.header) ≡ true)
        → chosen_id zero_random share_request ≡ get header_request_id share_request.header)
    × IsCorrelated
        (log_config hooks)
        panicking
        (chosen_id zero_random share_request)
        7
        share_request
        fresh
        (request_logger no_addresses print_none
          (log_config hooks)
          zero_random
          7
          panicking
          share_request
          fresh)
request_logger-IsCorrelated_example =
    request_logger-IsCorrelated no_addresses print_none (log_config hooks) zero_random 7 panicking
      share_request fresh refl (omega arith) (log_config-hooks hooks).0
