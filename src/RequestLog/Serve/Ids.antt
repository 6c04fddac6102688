-- ===== src/RequestLog/Serve/Ids.antt =====
-- A request's id, from the client or made, reaches the response, the handler and the log.
use webhttp.Prelude.{
  ℕ, ◌≤◌, Bool, true, false, ◌&&◌, ◌||◌, List, [], ◌∷◌, ◌≡◌, ◌⊎◌, refl, Bytes, has, length, All,
  Bool-cases, inl, inr, some,
}
use webhttp.Header.{get, set, values}
use webhttp.Header.Laws.{values-set}
use webhttp.Net.{Addr, AddrText}
use webhttp.Http.{Request, Response, Outcome}
use webhttp.Recorder.{StatusRecorder, run, new_status_recorder, switched_protocol}
use webhttp.RequestLog.Id.{valid_request_id, IsByte, new_request_id-valid}
use webhttp.RequestLog.Config.{LogConfig, metric_hooks}
use webhttp.RequestLog.Emit.{LogEvent}
use webhttp.RequestLog.Emit.Lines.{IsLogged, emit_access_log-IsLogged}
use webhttp.RequestLog.Serve.{Traced, header_request_id, chosen_id, skips_func, request_logger}

chosen_id-valid :
    (random : Bytes) (r : Request)
    → length random ≡ 16
    → All IsByte random
    → valid_request_id (chosen_id random r) ≡ true
unfolding chosen_id
chosen_id-valid random r n h =
    elim (Bool-cases (valid_request_id (get header_request_id r.header))) [
      | inl ok ↦ rw ok ok
      | inr bad ↦ rw bad (new_request_id-valid random n h)
    ]

-- Nothing is logged of a request on a skipped path, one that the app skips, and one that switched
-- protocols where that is configured.
abbrev pub is_skipped : LogConfig → Request → StatusRecorder → Bool
is_skipped c r rec =
    (has r.path c.skip_paths || skips_func c.skip_func r)
    || c.skip_upgrades && switched_protocol rec

-- What the handler sees, what the caller gets, and what is logged, of a request with this id.
pub record IsCorrelated (c : LogConfig) (next : Traced) (id : Bytes) (d : ℕ) (r : Request)
    (w : Response) (res : (Response × Outcome) × List LogEvent) : Type 0 where
  pub inner_request : Request
  pub inner_response : Response
  pub result : res.0 ≡ next.serve inner_request inner_response
  pub handler_id : inner_request.request_id ≡ id
  pub response_id : values header_request_id inner_response.header ≡ id ∷ []
  pub same_path : inner_request.path ≡ r.path
  pub same_body : inner_response.body ≡ w.body
  pub logged :
      let rec = run (next.calls inner_request inner_response) new_status_recorder in
      let seen : Request = record inner_request {
        pattern = next.route inner_request inner_response;
      } in
      (is_skipped c inner_request rec ≡ true) × (res.1 ≡ [])
      ⊎ (is_skipped c inner_request rec ≡ false) × IsLogged c rec seen id d res.1

module _ (text : AddrText) (addr_string : Addr → Bytes) where
  request_logger_correlates :
      (c : LogConfig) (random : Bytes) (d : ℕ) (next : Traced) (r : Request) (w : Response)
      → metric_hooks c ≤ 1
      → IsCorrelated c next
          (chosen_id random r)
          d
          r
          w
          (request_logger text addr_string c random d next r w)
  unfolding request_logger
  request_logger_correlates c random d next r w h =
      let id = chosen_id random r in
      let w' : Response = record w { header = set header_request_id id w.header } in
      let r' : Request = record r { request_id = id } in
      let wrapped : Response = record w' { recorder = some false } in
      let rec = run (next.calls r' wrapped) new_status_recorder in
      let seen : Request = record r' { pattern = next.route r' wrapped } in
      let with_id = values-set header_request_id header_request_id id w.header in
      elim (Bool-cases (has r.path c.skip_paths || skips_func c.skip_func r')) [
        | inl skip ↦ rw skip (record {
          inner_request = r';
          inner_response = w';
          result = refl;
          handler_id = refl;
          response_id = with_id;
          same_path = refl;
          same_body = refl;
          logged = inl (rw skip refl, refl);
        })
        | inr served ↦ rw served (record {
          inner_request = r';
          inner_response = wrapped;
          result = refl;
          handler_id = refl;
          response_id = with_id;
          same_path = refl;
          same_body = refl;
          logged = rw served (emit_access_log-IsLogged text addr_string c rec seen r.path id d h);
        })
      ]

  -- The id is well-formed, and it is the client's where that is. The handler runs once with the id in
  -- its context and in the response's header, its result and its panics pass through whatever the
  -- hooks do, and the request is skipped or logged under the id.
  pub request_logger-IsCorrelated :
      (c : LogConfig) (random : Bytes) (d : ℕ) (next : Traced) (r : Request) (w : Response)
      → length random ≡ 16
      → All IsByte random
      → metric_hooks c ≤ 1
      → (valid_request_id (chosen_id random r) ≡ true)
        × ((valid_request_id (get header_request_id r.header) ≡ true)
            → chosen_id random r ≡ get header_request_id r.header)
        × IsCorrelated c next
            (chosen_id random r)
            d
            r
            w
            (request_logger text addr_string c random d next r w)
  request_logger-IsCorrelated c random d next r w n bytes h = (
    chosen_id-valid random r n bytes,
    λ ok. unfold chosen_id in rw ok refl,
    request_logger_correlates c random d next r w h,
  )
