-- ===== src/Static/Tests.antt =====
-- Runs of the static handler's conditional answer, and its law.
use webhttp.Prelude.{
  true, false, ◌||◌, [], ◌∷◌, none, some, Option, Bytes, ◌≡◌, refl, codes, any, eq_bytes,
  eq_bytes_iff, List, arith, if◌then◌else◌,
}
use webhttp.Header.{Header, values}
use webhttp.FieldList.{entity_tag_list, field_list}
use webhttp.Static.{if_none_match, without_weak, static_handler, asset_name}
use webhttp.Http
use webhttp.Http.{Request, Response, fresh, Outcome, returned, Handler}
use webhttp.Static.Maps.{WalkEntry, directory, file, gzip_asset, new_static_handler}
use webhttp.Static.Serve.{IsServed, new_static_handler-IsServed}
use webhttp.Static.Match.{is_wildcard, if_none_match-eq}

abbrev matching : Header
matching = (codes "If-None-Match", codes "\"a\", W/\"b\"" ∷ []) ∷ []

runs :
    (if_none_match matching (codes "\"b\"") ≡ true)
    × (if_none_match matching (codes "\"c\"") ≡ false)
    × (if_none_match ((codes "If-None-Match", codes "*" ∷ []) ∷ []) (codes "\"c\"") ≡ true)
    × (if_none_match ((codes "If-None-Match", codes "*, \"b\"" ∷ []) ∷ []) (codes "\"c\"") ≡ false)
unfolding if_none_match values
runs = (refl, refl, refl, refl)

if_none_match-eq_example : if_none_match matching (codes "\"b\"") ≡ (
    any
      (λ m. eq_bytes (without_weak m) (codes "\"b\""))
      (field_list matching (codes "If-None-Match") entity_tag_list)
    || is_wildcard (field_list matching (codes "If-None-Match") entity_tag_list))
if_none_match-eq_example = if_none_match-eq matching (codes "\"b\"")

-- a page of four bytes, which the compressor shortens to its first two
abbrev site : List WalkEntry
site = directory ∷ file (codes "index.html") (codes "abab") ∷ []

abbrev halves : Bytes → Option Bytes
halves b = if eq_bytes b (codes "abab") then some (codes "ab") else none

abbrev doubles : Bytes → Option Bytes
doubles z = if eq_bytes z (codes "ab") then some (codes "abab") else none

doubles-halves : (b z : Bytes) → halves b ≡ some z → doubles z ≡ some b
doubles-halves b z h = ground (arith, eq_bytes_iff b (codes "abab"), eq_bytes_iff z (codes "ab"))

abbrev not_here : Handler
not_here r w = (Http.write_header 404 w, returned)

abbrev root_request : Request
root_request = record {
  method = codes "GET";
  path = codes "/";
  pattern = [];
  host = [];
  remote_addr = [];
  header = (codes "Accept-Encoding", codes "gzip" ∷ []) ∷ [];
  request_id = [];
}

abbrev site_handler : Handler
site_handler =
    static_handler (λ p. p) not_here (λ p. codes "no-cache")
      ((codes "index.html", codes "\"0f\"") ∷ [])
      ((codes "index.html", record { content_type = codes "text/html"; body = codes "ab" }) ∷ [])

site_made :
    new_static_handler
      (λ b. codes "0f")
      halves
      (λ n. codes "text/html")
      (λ b. [])
      (λ p. p)
      not_here
      []
      site
    ≡ (some site_handler, none)
unfolding new_static_handler gzip_asset
site_made = refl

new_static_handler-IsServed_example :
    IsServed
      (λ b. codes "0f")
      halves
      (λ n. codes "text/html")
      (λ b. [])
      (λ p. p)
      not_here
      doubles
      (asset_name root_request.path)
      site
      root_request
      fresh
      (site_handler root_request fresh)
new_static_handler-IsServed_example =
    new_static_handler-IsServed (λ b. codes "0f") halves (λ n. codes "text/html") (λ b. []) (λ p. p)
      not_here doubles [] site site_handler root_request fresh doubles-halves (refl, tt) refl refl
      site_made
