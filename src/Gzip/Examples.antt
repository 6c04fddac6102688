-- ===== src/Gzip/Examples.antt =====
-- The middleware at concrete requests: its options, a page and a panic.
use webhttp.Prelude.{true, List, [], ◌∷◌, none, some, ◌≡◌, refl, ◌++◌, Bytes, codes, Option}
use webhttp.Http.{Request, Response, fresh, panicked}
use webhttp.Json.{ErrorResponse}
use webhttp.Middleware.{Hook, enter, recoverer}
use webhttp.AsciiFold.{lower_ascii_string}
use webhttp.Gzip.{GzipConfig}
use webhttp.Gzip.Calls.{Call, writes, calls}
use webhttp.Gzip.Negotiated.{IsNegotiated, finish-IsNegotiated}
use webhttp.Gzip.Panic.{IsUnwound, gzip-IsUnwound}
use webhttp.Gzip.Serve.{Scripted, with_gzip_min_bytes, with_gzip_types, gzip_config, offers, gzip}
use webhttp.Gzip.Writer.{Compressor, new_writer, finish}

-- passes nothing on before it is closed
abbrev whole : Compressor
whole = record {
  Zw = Bytes;
  reset = [];
  write_z = λ p zw. (zw ++ p, []);
  flush_z = λ zw. (zw, []);
  close_z = λ zw. b'<' ∷ zw;
}

abbrev page_request : Request
page_request = record {
  method = codes "GET";
  path = codes "/";
  pattern = [];
  host = [];
  remote_addr = [];
  header = (codes "Accept-Encoding", codes "gzip" ∷ []) ∷ [];
  request_id = [];
}

abbrev json_response : Response
json_response = record fresh {
  header =
      (codes "Content-Type", codes "application/json" ∷ [])
      ∷ ((codes "Content-Length", codes "9" ∷ []) ∷ ((codes "Etag", codes "\"1\"" ∷ []) ∷ []));
}

config_runs :
    ((gzip_config (some (with_gzip_min_bytes 0) ∷ none ∷ [])).min_bytes ≡ 1)
    × ((gzip_config []).min_bytes ≡ 1024)
unfolding gzip_config
config_runs = (refl, refl)

types_run : with_gzip_types (codes "text/html" ∷ codes "text/*" ∷ []) ≡ none
unfolding with_gzip_types lower_ascii_string
types_run = refl

abbrev tiny : GzipConfig
tiny = record { skip = none; types = codes "application/json" ∷ []; min_bytes = 3 }

abbrev two_writes : List Call
two_writes = writes (codes "ab") ∷ writes (codes "cd") ∷ []

finish-IsNegotiated_example :
    IsNegotiated some
      (λ k. k)
      whole
      tiny
      (finish some
        (λ k. k)
        whole
        (calls some
          (λ k. k)
          whole
          two_writes
          (new_writer some (λ k. k) whole tiny true json_response)))
finish-IsNegotiated_example =
    finish-IsNegotiated some (λ k. k) whole tiny true json_response two_writes refl

abbrev no_json : ErrorResponse → Option Bytes
no_json e = some (codes "{}")

abbrev fails_late : Scripted
fails_late r = (writes (codes "ab") ∷ [], panicked 7)

abbrev broken_hook : Option Hook
broken_hook = some (λ v. panicked 8)

gzip-IsUnwound_example :
    IsUnwound some
      (λ k. k)
      whole
      no_json
      page_request
      json_response
      (calls some
        (λ k. k)
        whole
        (writes (codes "ab") ∷ [])
        (new_writer some (λ k. k) whole tiny (offers page_request) (enter json_response)))
      (recoverer no_json broken_hook none
        (gzip some (λ k. k) whole tiny fails_late)
        page_request
        json_response)
gzip-IsUnwound_example =
    gzip-IsUnwound some (λ k. k) whole no_json broken_hook tiny fails_late page_request
      json_response (writes (codes "ab") ∷ []) 7 refl refl refl refl
