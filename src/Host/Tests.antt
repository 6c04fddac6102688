-- ===== src/Host/Tests.antt =====
-- Runs of the canonical form and of the policy, and their laws, over two addresses.
use webhttp.Prelude.{
  Bool, true, false, ◌||◌, List, [], ◌∷◌, Option, none, some, ◌==◌, ◌≡◌, refl, if◌then◌else◌, Bytes,
  codes, eq_bytes, trim, map, keep,
}
use webhttp.Http.{Request}
use webhttp.Host.{
  HostText, canonical_host, HostAllowlistOption, with_loopback_exempt, host_policy, default_policy,
  parse_host_list, allows, loopback_request, cut_port, valid_port, port_number, canonical_name,
  canonical_stripped, valid_hostname, labels, label_bytes, canonical_bracketed, bracket_rest,
  add_entry, add_entries, is_loopback_host, is_loopback_peer,
}
use webhttp.AsciiFold.{lower_ascii_string}
use webhttp.Net.{split_host_port}
use webhttp.Host.Canonical.{canonical_host_idem}
use webhttp.Host.Policy.{is_invalid, admits, parse_host_list-admits}

data TwoIps : Type 0 where
  loop_back ten : TwoIps

unfoldable parse_two : Bytes → Option TwoIps
parse_two s =
    if eq_bytes s (codes "127.0.0.1") || eq_bytes s (codes "::ffff:127.0.0.1")
    then some loop_back
    else if eq_bytes s (codes "10.0.0.1")
    then some ten
    else none

abbrev print_two : TwoIps → Bytes
print_two loop_back = codes "127.0.0.1"
print_two ten = codes "10.0.0.1"

abbrev is_loop_back : TwoIps → Bool
is_loop_back loop_back = true
is_loop_back ten = false

abbrev two_ips : HostText
two_ips = record {
  Ip = TwoIps;
  parse_ip = parse_two;
  ip_string = print_two;
  is_loopback = is_loop_back;
  trim_space = trim (λ c. c == b' ');
}

reparse_two : (t : Bytes) (ip : TwoIps) → parse_two t ≡ some ip → parse_two (print_two ip) ≡ some ip
unfolding parse_two
reparse_two t loop_back h = refl
reparse_two t ten h = refl

no_empty_two : parse_two [] ≡ none
unfolding parse_two
no_empty_two = refl

canonical_runs :
    (canonical_host two_ips (codes "Example.COM.:8080") ≡ codes "example.com")
    × (canonical_host two_ips (codes "[::ffff:127.0.0.1]:80") ≡ codes "127.0.0.1")
    × (canonical_host two_ips (codes "example.com:99999") ≡ codes "")
    × (canonical_host two_ips (codes "1.2.3.4.5") ≡ codes "")
unfolding canonical_host parse_two cut_port valid_port port_number canonical_name canonical_stripped
    lower_ascii_string valid_hostname labels label_bytes canonical_bracketed bracket_rest
canonical_runs = (refl, refl, refl, refl)

canonical_host_idem_example :
    canonical_host two_ips (canonical_host two_ips (codes "[::ffff:127.0.0.1]:80"))
    ≡ canonical_host two_ips (codes "[::ffff:127.0.0.1]:80")
canonical_host_idem_example =
    canonical_host_idem two_ips reparse_two no_empty_two (codes "[::ffff:127.0.0.1]:80")

abbrev local_request : Request
local_request = record {
  method = codes "GET";
  path = codes "/";
  pattern = [];
  host = codes "LOCALHOST:80";
  remote_addr = codes "127.0.0.1:4000";
  header = [];
  request_id = [];
}

abbrev entries : List Bytes
entries = codes " " ∷ codes "Example.com " ∷ codes "no host" ∷ []

abbrev options : List (Option HostAllowlistOption)
options = none ∷ some (with_loopback_exempt true) ∷ []

policy_runs :
    (allows two_ips (some (parse_host_list two_ips entries options).0) local_request ≡ true)
    × (allows two_ips (some (parse_host_list two_ips entries []).0) local_request ≡ false)
    × (loopback_request two_ips local_request ≡ true)
unfolding allows parse_host_list loopback_request canonical_host parse_two add_entries add_entry
    cut_port canonical_name canonical_stripped lower_ascii_string valid_hostname labels label_bytes
    host_policy valid_port port_number is_loopback_host is_loopback_peer split_host_port
policy_runs = (refl, refl, refl)

parse_host_list-admits_example :
    let (p, invalid) = parse_host_list two_ips entries options in
    (allows two_ips (some p) local_request
      ≡ admits two_ips entries (host_policy options default_policy).loopback_exempt local_request)
    × (invalid ≡ map (trim (λ c. c == b' ')) (keep (is_invalid two_ips) entries))
parse_host_list-admits_example = parse_host_list-admits two_ips entries options local_request
