-- ===== src/ClientIp/Tests.antt =====
-- Runs of the client address, and its laws, over a table of addresses.
use webhttp.Prelude.{
  true, false, List, [], ◌∷◌, Option, none, some, ◌≡◌, ◌≢◌, ◌↔◌, refl, arith, if◌then◌else◌, Bytes,
  codes, eq_bytes,
}
use webhttp.Header.{values}
use webhttp.FieldList.{field_elements, quoted_pair_byte}
use webhttp.Net.{Addr, v4, zero_addr, Prefix, AddrText, unmap}
use webhttp.Http.{Request}
use webhttp.ClientIp.{Forwarding, client, resolve_client, in_trusted, peer_of, parse_forwarding}
use webhttp.ClientIp.Forwarded.{cut_forwarded_value, element_loop}
use webhttp.ClientIp.Forwarded.Quoting.{cut_forwarded_value-escape}
use webhttp.ClientIp.Forwarded.Fuel.{element_loop-ne-none}
use webhttp.ClientIp.Cidr.{parse_trusted_prefix, parse_trusted_prefix-trusts}
use webhttp.ClientIp.Walk.{IsClient, client_iff}
use webhttp.ClientIp.Resolve.{IsResolved, resolve_client-IsResolved}
use webhttp.ClientIp.Spoof.{resolve_client-prepend}

unfoldable parse_table : Bytes → Option Addr
parse_table s =
    if eq_bytes s (codes "10.0.0.1")
    then some (v4 0x0a000001)
    else if eq_bytes s (codes "8.8.8.8")
    then some (v4 0x08080808)
    else if eq_bytes s (codes "1.1.1.1")
    then some (v4 0x01010101)
    else none

abbrev table : AddrText
table = record {
  parse_addr = parse_table;
  parse_addr_port = λ s. none;
  parse_prefix = λ s. none;
  is_global_unicast = λ ip. true;
  is_private = λ ip. false;
}

abbrev lan : List Prefix
lan = record { addr = v4 0x0a000000; bits = 8 } ∷ []

abbrev request_with : Bytes → Request
request_with xff = record {
  method = codes "GET";
  path = codes "/";
  pattern = [];
  host = [];
  remote_addr = codes "10.0.0.1:443";
  header = (codes "X-Forwarded-For", xff ∷ []) ∷ [];
  request_id = [];
}

abbrev proxied_request : Request
proxied_request = request_with (codes "8.8.8.8, 10.0.0.1")

abbrev forged_request : Request
forged_request = request_with (codes "1.1.1.1,8.8.8.8, 10.0.0.1")

resolved_forwarded : (resolve_client table proxied_request lan).forwarded ≡ true
unfolding resolve_client parse_table in_trusted peer_of client parse_forwarding
resolved_forwarded = refl

resolve_client-IsResolved_example :
    IsResolved table lan proxied_request (resolve_client table proxied_request lan)
resolve_client-IsResolved_example = resolve_client-IsResolved table lan proxied_request

resolve_client-prepend_example :
    resolve_client table forged_request lan ≡ resolve_client table proxied_request lan
unfolding values
resolve_client-prepend_example =
    resolve_client-prepend table lan proxied_request forged_request (codes "1.1.1.1") refl refl
      (unfold field_elements in omega arith) resolved_forwarded

abbrev hops : Forwarding
hops = record {
  xff =
      record { addr = v4 0x08080808; bare = true }
      ∷ record { addr = v4 0x0a000001; bare = true }
      ∷ [];
  real_ip = [];
  forwarded = [];
}

client_iff_example :
    (client hops lan ≡ some (v4 0x08080808)) ↔ IsClient lan hops.xff (v4 0x08080808)
client_iff_example = client_iff lan hops (v4 0x08080808)

cut_forwarded_value-escape_example :
    cut_forwarded_value (codes "\"a\\\"b\";by=c") ≡ some (codes "a\"b", codes ";by=c")
unfolding quoted_pair_byte
cut_forwarded_value-escape_example =
    cut_forwarded_value-escape (codes "a\"b") (codes ";by=c") (refl, (refl, (refl, tt)))

element_loop-ne-none_example : element_loop table 10 zero_addr [] (codes "for=_a;;") ≢ none
element_loop-ne-none_example =
    element_loop-ne-none table 10 zero_addr [] (codes "for=_a;;") (omega arith)

found_ten : parse_table (codes "10.0.0.1") ≡ some (v4 0x0a000001)
unfolding parse_table
found_ten = refl

parse_trusted_prefix-trusts_example :
    (p : Prefix) × (parse_trusted_prefix table (codes "10.0.0.1") ≡ some p)
    × (in_trusted (unmap (v4 0x0a000001)) (p ∷ []) ≡ true)
parse_trusted_prefix-trusts_example =
    parse_trusted_prefix-trusts table (codes "10.0.0.1") (v4 0x0a000001) refl found_ten refl refl
