-- ===== src/Readiness.antt =====
-- readiness.go: the readiness flag and its handler. The atomic flag is the state.
use webhttp.Prelude.{Bool, Option, if◌then◌else◌, Bytes, codes}
use webhttp.Header.{set}
use webhttp.Http.{Response}
use webhttp.Json.{write_json_status}

pub record Ready : Type 0 where
  pub flag : Bool

unfoldable pub set_ready : Bool → Ready → Ready
set_ready ready r = record r { flag = ready }

pub record ReadinessResponse : Type 0 where
  pub status : Bytes
  pub reason : Bytes

module _ (encode : ReadinessResponse → Option Bytes) where
  unfoldable pub readiness_handler : Bool → Response → Response
  unfolding write_json_status
  readiness_handler ready w =
      let w' : Response = record w {
        header = set (codes "Cache-Control") (codes "no-store") w.header;
      } in
      if ready
      then write_json_status encode 200 (record { status = codes "ok"; reason = codes "" }) w'
      else write_json_status encode 503
          (record { status = codes "unready"; reason = codes "starting up or shutting down" }) w'
