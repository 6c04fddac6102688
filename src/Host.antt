-- ===== src/Host.antt =====
-- hostallowlist.go: the canonical form of a Host value, the allowlist policy, and the loopback test.
pub mod Canonical
pub mod Policy
mod Tests
use webhttp.Prelude.{
  ℕ, ◌+◌, ◌-◌, ◌*◌, Bool, true, false, ◌&&◌, ◌||◌, not, List, [], ◌∷◌, ◌++◌, Option, none, some,
  ◌==◌, leb, ltb, within, if◌then◌else◌, is_nil, length, Bytes, codes, eq_bytes, contains_byte,
  cut_prefix, cut_byte, split_byte, trim_suffix, has, insert, ◌>>=◌,
}
use webhttp.AsciiFold.{lower_ascii_string}
use webhttp.Http.{Request, returned, Middleware}
use webhttp.Json.{ErrorResponse, write_error}
use webhttp.Net.{split_host_port}

-- What the standard library gives: net.ParseIP with IP.String and IP.IsLoopback, and
-- strings.TrimSpace.
pub record HostText : Type 1 where
  pub Ip : Type 0
  pub parse_ip : Bytes → Option Ip
  pub ip_string : Ip → Bytes
  pub is_loopback : Ip → Bool
  pub trim_space : Bytes → Bytes

-- the loop of `validPort`: the number, `none` at a byte that is no digit
port_number : ℕ → Bytes → Option ℕ
port_number n [] = some n
port_number n (c ∷ s) =
    let rest = port_number (n * 10 + (c - b'0')) s in
    if ltb c b'0' || ltb b'9' c then none else rest

abbrev port_fits : Option ℕ → Bool
port_fits none = false
port_fits (some n) = leb n 65535

valid_port : Bytes → Bool
valid_port port =
    if is_nil port || ltb 5 (length port) then false else port_fits (port_number 0 port)

-- the loop over a label's bytes: `nonNumeric` after it, `none` for `return false`
label_bytes : Bytes → Bool → Option Bool
label_bytes [] non_numeric = some non_numeric
label_bytes (c ∷ s) non_numeric =
    let digit = label_bytes s non_numeric in
    let letter = label_bytes s true in
    if within b'0' b'9' c
    then digit
    else if within b'a' b'z' c || c == b'-' || c == b'_'
    then letter
    else none

labels : List Bytes → Bool → Bool
labels [] non_numeric = non_numeric
labels (label ∷ rest) non_numeric =
    if is_nil label || ltb 63 (length label)
    then false
    else elim (label_bytes label non_numeric) [ none ↦ false | some n ↦ labels rest n ]

pub valid_hostname : Bytes → Bool
valid_hostname host = labels (split_byte b'.' host) false

-- the text behind the first colon; `host[:i]` where it is a port
cut_port : Bytes → Option Bytes
cut_port host = elim (cut_byte b':' host) [
  | none ↦ some host
  | some (before, port) ↦ if valid_port port then some before else none
]

-- `rest == ""`, or one valid ":port"
bracket_rest : Bytes → Bool
bracket_rest [] = true
bracket_rest (c ∷ s) = c == b':' && valid_port s

module _ (text : HostText) where
  open text use {Ip, parse_ip, ip_string, is_loopback, trim_space}

  canonical_bracketed : Bytes → Bytes
  canonical_bracketed s = elim (cut_byte b']' s) [
    | none ↦ []
    | some (inner, rest) ↦ if not (bracket_rest rest) then [] else elim (parse_ip inner) [
      | none ↦ []
      | some ip ↦ if contains_byte b':' inner then ip_string ip else []
    ]
  ]

  -- a name with no port and no trailing dot
  canonical_stripped : Bytes → Bytes
  canonical_stripped host = elim (parse_ip host) [
    | some ip ↦ ip_string ip
    | none ↦ if not (valid_hostname host) then [] else host
  ]

  -- a name, its port cut off
  canonical_name : Bytes → Bytes
  canonical_name name = canonical_stripped (trim_suffix b'.' (lower_ascii_string name))

  pub canonical_host : Bytes → Bytes
  canonical_host hostport = elim (parse_ip hostport) [
    | some ip ↦ ip_string ip
    | none ↦ elim (cut_prefix (codes "[") hostport) [
      | some inner ↦ canonical_bracketed inner
      | none ↦ elim (cut_port hostport) [ none ↦ [] | some name ↦ canonical_name name ]
    ]
  ]

  pub is_loopback_host : Bytes → Bool
  is_loopback_host canon =
      eq_bytes canon (codes "localhost")
      || elim (parse_ip canon) [ none ↦ false | some ip ↦ is_loopback ip ]

  pub is_loopback_peer : Bytes → Bool
  is_loopback_peer remote_addr = elim (split_host_port remote_addr) [
    | none ↦ false
    | some host ↦ elim (parse_ip host) [ none ↦ false | some ip ↦ is_loopback ip ]
  ]

  pub loopback_request : Request → Bool
  loopback_request r = is_loopback_peer r.remote_addr && is_loopback_host (canonical_host r.host)

pub record HostPolicy : Type 0 where
  pub allowed : List Bytes
  pub code : Bytes
  pub msg : Bytes
  pub loopback_exempt : Bool
  pub active : Bool

pub data HostAllowlistOption : Type 0 where
  with_loopback_exempt : Bool → HostAllowlistOption
  with_host_allowlist_error : Bytes → Bytes → HostAllowlistOption

apply_option : HostAllowlistOption → HostPolicy → HostPolicy
apply_option (with_loopback_exempt exempt) p = record p { loopback_exempt = exempt }
apply_option (with_host_allowlist_error code msg) p = record p { code = code; msg = msg }

-- the options in order, nil ones skipped, over the empty policy
pub host_policy : List (Option HostAllowlistOption) → HostPolicy → HostPolicy
unfolding apply_option
host_policy [] p = p
host_policy (none ∷ opts) p = host_policy opts p
host_policy (some o ∷ opts) p = host_policy opts (apply_option o p)

abbrev pub default_policy : HostPolicy
default_policy = record {
  allowed = [];
  code = codes "host_not_allowed";
  msg = codes "host not allowed";
  loopback_exempt = false;
  active = false;
}

module _ (text : HostText) where
  open text use {trim_space}

  -- one entry: the policy and the invalid entries after it
  add_entry : Bytes → HostPolicy × List Bytes → HostPolicy × List Bytes
  add_entry e (p, invalid) =
      let s = trim_space e in
      let key = canonical_host text s in
      if is_nil s
      then (p, invalid)
      else if is_nil key
      then (record p { active = true }, invalid ++ s ∷ [])
      else (record p { active = true; allowed = insert key p.allowed }, invalid)

  add_entries : List Bytes → HostPolicy × List Bytes → HostPolicy × List Bytes
  add_entries [] acc = acc
  add_entries (e ∷ entries) acc = add_entries entries (add_entry e acc)

  pub parse_host_list : List Bytes → List (Option HostAllowlistOption) → HostPolicy × List Bytes
  parse_host_list entries opts = add_entries entries (host_policy opts default_policy, [])

  -- `none` is a nil policy
  pub allows : Option HostPolicy → Request → Bool
  allows none r = true
  allows (some p) r =
      let host = canonical_host text r.host in
      if not p.active
      then true
      else if has host p.allowed
      then true
      else p.loopback_exempt && is_loopback_host text host && is_loopback_peer text r.remote_addr

abbrev pub size : Option HostPolicy → ℕ
size none = 0
size (some p) = length p.allowed

module _ (text : HostText) (encode : ErrorResponse → Option Bytes) where
  -- `none` is a nil policy, under which the handler is left as it is
  unfoldable pub host_middleware : Option HostPolicy → Middleware
  unfolding allows
  host_middleware none next r w = next r w
  host_middleware (some p) next r w =
      if not p.active
      then next r w
      else if allows text (some p) r
      then next r w
      else (write_error encode r 403 p.code p.msg w, returned)
