-- ===== src/RequestLog/Serve.antt =====
-- reqlog.go: the middleware that gives a request its id and logs it.
pub mod Ids
use webhttp.Prelude.{
  ℕ, Bool, true, false, ◌||◌, List, [], ◌∷◌, Option, none, some, if◌then◌else◌, Bytes, codes, has,
}
use webhttp.Header.{Header, get, set}
use webhttp.Net.{Addr, AddrText}
use webhttp.Http.{Request, Response, Outcome, Handler}
use webhttp.Recorder.{Op, run, new_status_recorder}
use webhttp.RequestLog.Id.{valid_request_id, new_request_id}
use webhttp.RequestLog.Config.{LogConfig, LogOption, log_config}
use webhttp.RequestLog.Emit.{LogEvent, emit_access_log}

-- A handler, with the calls that it makes on its writer, as the recorder around the writer sees them,
-- and the pattern that a mux inside it has set on the request when it ends.
pub record Traced : Type 0 where
  pub serve : Handler
  pub calls : Request → Response → List Op
  pub route : Request → Response → Bytes

-- `HeaderRequestID` in its canonical form
abbrev pub header_request_id : Bytes
header_request_id = codes "X-Request-Id"

-- `random` is what rand.Read gives where an id is made.
unfoldable pub chosen_id : Bytes → Request → Bytes
chosen_id random r =
    let id = get header_request_id r.header in
    if valid_request_id id then id else new_request_id random

abbrev skips_func : Option (Request → Bool) → Request → Bool
skips_func none r = false
skips_func (some fn) r = fn r

module _ (text : AddrText) (addr_string : Addr → Bytes) where
  -- The deferred emission is made however the handler ends; `d` is the time that it takes.
  unfoldable pub request_logger :
      LogConfig → Bytes → ℕ → Traced → Request → Response → (Response × Outcome) × List LogEvent
  unfolding chosen_id run new_status_recorder
  request_logger c random d next r w =
      let id = chosen_id random r in
      let w' : Response = record w { header = set header_request_id id w.header } in
      let r' : Request = record r { request_id = id } in
      if has r.path c.skip_paths || skips_func c.skip_func r'
      then (next.serve r' w', [])
      else let rec : Response = record w' { recorder = some false } in
        (
          next.serve r' rec,
          emit_access_log text addr_string c (run (next.calls r' rec) new_status_recorder)
              (record r' { pattern = next.route r' rec }) r.path id d,
        )

  -- Logging: RequestLogger over a list of options, as a middleware
  unfoldable logging :
      List (Option LogOption)
      → Bytes
      → ℕ
      → Traced
      → Request
      → Response
      → (Response × Outcome) × List LogEvent
  unfolding request_logger log_config
  logging opts random d next r w = request_logger (log_config opts) random d next r w
