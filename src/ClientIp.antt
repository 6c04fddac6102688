-- ===== src/ClientIp.antt =====
-- clientip.go: the client's address, from the peer and the forwarding fields. The parsers of the
-- Forwarded field are in `Forwarded`.
pub mod Forwarded
pub mod Cidr
pub mod Walk
pub mod Resolve
pub mod Spoof
mod Tests
use mathlib.Core.List.{reverse}
use webhttp.Prelude.{
  ℕ, Bool, true, false, ◌&&◌, ◌||◌, not, List, [], ◌∷◌, ◌++◌, Option, none, some, ◌==◌,
  if◌then◌else◌, is_nil, any, length, Bytes, codes, trim, trim_suffix,
}
use webhttp.Header.{Header}
use webhttp.FieldList.{ListSyntax, token_list, quoted_string_list, field_list}
use webhttp.Net.{
  Addr, zero_addr, is_valid, is4, is6, zone, unmap, as_16, Prefix, contains, AddrText,
  split_host_port,
}
use webhttp.Http.{Request}
use webhttp.ClientIp.Forwarded.{ForwardedElement, parse_forwarded_element}

pub record ClientResolution : Type 0 where
  pub ip : Addr
  pub peer : Addr
  pub forwarded : Bool
  pub untrusted_forwarding : Bool
  pub ignored_public : Bool

abbrev pub max_forwarding_hops : ℕ
max_forwarding_hops = 64

unfoldable pub peer_host : Bytes → Bytes
unfolding split_host_port
peer_host remote_addr = elim (split_host_port remote_addr) [ some host ↦ host | none ↦ remote_addr ]

unfoldable pub in_trusted : Addr → List Prefix → Bool
unfolding contains as_16
in_trusted ip trusted =
    if not (is_valid ip)
    then false
    else any (λ p. contains p ip || is4 ip && contains p (as_16 ip)) trusted

pub record ListEntry : Type 0 where
  pub addr : Addr
  pub bare : Bool

-- `listEntry{}`
abbrev pub zero_entry : ListEntry
zero_entry = record { addr = zero_addr; bare = false }

pub record Forwarding : Type 0 where
  pub xff : List ListEntry
  pub real_ip : List ListEntry
  pub forwarded : List ForwardedElement

abbrev addr_or_zero : Option Addr → Addr
addr_or_zero none = zero_addr
addr_or_zero (some ip) = ip

-- `strings.TrimPrefix` of one byte
abbrev trim_prefix : ℕ → Bytes → Bytes
trim_prefix b [] = []
trim_prefix b (c ∷ s) = if c == b then s else c ∷ s

entry_of : Addr → Bool → ListEntry
entry_of ip bare =
    if not (is_nil (zone ip)) then zero_entry else record { addr = unmap ip; bare = bare }

-- The loop of `parseBounded`: the elements parsed so far and the ones left.
pub bounded_loop {ℓ} : {T : Type ℓ} → T → (Bytes → T) → List T → List Bytes → List T
bounded_loop zero parse elems [] = elems
bounded_loop zero parse elems (e ∷ rest) =
    let more = bounded_loop zero parse (elems ++ parse e ∷ []) rest in
    if length elems == max_forwarding_hops then zero ∷ [] else more

unfoldable pub parse_bounded {ℓ} :
    {T : Type ℓ} → T → (Bytes → T) → Header → Bytes → ListSyntax → List T
unfolding bounded_loop
parse_bounded zero parse h name syntax = bounded_loop zero parse [] (field_list h name syntax)

-- the loop of `client`, over the entries from the right
pub walk : List Prefix → List ListEntry → Option Addr
walk trusted [] = none
walk trusted (e ∷ rest) =
    let more = walk trusted rest in
    if not e.bare then none else if not (in_trusted e.addr trusted) then some e.addr else more

unfoldable pub client : Forwarding → List Prefix → Option Addr
unfolding walk in_trusted
client f trusted = walk trusted (reverse f.xff)

unfoldable pub present : Forwarding → Bool
present f = not (is_nil f.xff) || not (is_nil f.real_ip) || not (is_nil f.forwarded)

module _ (text : AddrText) where
  open text use {parse_addr, parse_addr_port, is_global_unicast, is_private}

  unfoldable pub parse_list_entry : Bytes → ListEntry
  unfolding entry_of unmap
  parse_list_entry elem = elim (parse_addr elem) [
    | some ip ↦ entry_of ip true
    | none ↦
        let elem' = trim (λ c. c == b'"') elem in
        elim (parse_addr_port elem') [
          | some ip ↦ entry_of ip false
          | none ↦
              entry_of (addr_or_zero (parse_addr (trim_suffix b']' (trim_prefix b'[' elem')))) false
        ]
  ]

  unfoldable pub parse_forwarding : Header → Forwarding
  unfolding parse_bounded field_list parse_list_entry parse_forwarded_element
  parse_forwarding h = record {
    xff = parse_bounded zero_entry parse_list_entry h (codes "X-Forwarded-For") token_list;
    real_ip = parse_bounded zero_entry parse_list_entry h (codes "X-Real-Ip") token_list;
    forwarded =
        parse_bounded Forwarded.zero_element (parse_forwarded_element text) h (codes "Forwarded")
          quoted_string_list;
  }

  unfoldable pub is_public : Addr → Bool
  is_public ip = is_global_unicast ip && not (is_private ip)

  unfoldable pub names_public : Forwarding → Bool
  unfolding is_public
  names_public f =
      any (λ e. is_public e.addr) f.xff
      || any (λ e. is_public e.addr) f.real_ip
      || any (λ e. e.valid && is_public e.for_node) f.forwarded

  pub peer_of : Request → Addr
  unfolding peer_host unmap
  peer_of r = elim (parse_addr (peer_host r.remote_addr)) [ none ↦ zero_addr | some ip ↦ unmap ip ]

  unfoldable pub resolve_client : Request → List Prefix → ClientResolution
  resolve_client r trusted =
      let peer = peer_of r in
      let res : ClientResolution = record {
        ip = peer;
        peer = peer;
        forwarded = false;
        untrusted_forwarding = false;
        ignored_public = false;
      } in
      let fwd = parse_forwarding r.header in
      if not (in_trusted peer trusted)
      then record res { untrusted_forwarding = present fwd; ignored_public = names_public fwd }
      else elim (client fwd trusted) [
        | none ↦ res
        | some ip ↦ record res { ip = ip; forwarded = true }
      ]

  -- `addr_string` is netip.Addr's String.
  unfoldable pub client_ip : (Addr → Bytes) → Request → List Prefix → Bytes
  client_ip addr_string r trusted = addr_string (resolve_client r trusted).ip
