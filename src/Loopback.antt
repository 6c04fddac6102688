-- ===== src/Loopback.antt =====
-- loopbackonly.go: the gate of an endpoint that is for this machine alone.
use webhttp.Prelude.{
  Bool, ◌||◌, not, List, [], ◌∷◌, Option, none, some, if◌then◌else◌, is_nil, any, Bytes, codes,
}
use webhttp.Header.{Header, values}
use webhttp.Http.{returned, Handler, Middleware}
use webhttp.Json.{ErrorResponse, write_error}
use webhttp.Host.{HostText, loopback_request}

abbrev pub loopback_refusal_code : Bytes
loopback_refusal_code = codes "loopback_only"

abbrev pub proxy_provenance_headers : List Bytes
proxy_provenance_headers =
    codes "Forwarded"
    ∷ (codes "X-Forwarded-For"
        ∷ (codes "X-Forwarded-Host"
            ∷ (codes "X-Forwarded-Proto"
                ∷ (codes "X-Real-Ip" ∷ (codes "Sec-Fetch-Site" ∷ (codes "Origin" ∷ []))))))

unfoldable pub proxied_request : Header → Bool
proxied_request h = any (λ name. any (λ v. not (is_nil v)) (values name h)) proxy_provenance_headers

module _ (text : HostText) (encode : ErrorResponse → Option Bytes) where
  abbrev refusal : Option Handler → Handler
  refusal none r w = (
    write_error encode r 403 loopback_refusal_code
        (codes "this endpoint is loopback-only; call it from inside the container") w,
    returned,
  )
  refusal (some refuse) r w = refuse r w

  unfoldable pub loopback_only : Option Handler → Middleware
  unfolding proxied_request
  loopback_only refuse next r w =
      if not (loopback_request text r) || proxied_request r.header
      then refusal refuse r w
      else next r w
