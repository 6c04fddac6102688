-- ===== src/ClientIp/Cidr.antt =====
-- clientip.go: the prefixes of the trusted proxies, from a configuration.
use webhttp.Prelude.{
  ◌-◌, true, ◌&&◌, not, List, [], ◌∷◌, ◌++◌, Option, none, some, ◌≡◌, leb, if◌then◌else◌, is_nil,
  Bytes, arith, Bool-cases, inl, inr,
}
use webhttp.Net.{
  Addr, zero_addr, v4, v6, is_valid, is4_in_6, zone, unmap, bit_len, Prefix, masked, AddrText,
}
use webhttp.ClientIp.{in_trusted}

-- the prefix of a 4-in-6 address is that of its IPv4 address
abbrev unmap_prefix : Prefix → Prefix
unmap_prefix p =
    if is4_in_6 p.addr && leb 96 p.bits
    then record { addr = unmap p.addr; bits = p.bits - 96 }
    else p

module _ (text : AddrText) where
  open text use {parse_addr, parse_prefix}

  -- `s` as a prefix, or as an address with no zone
  abbrev prefix_or_addr : Bytes → Option Prefix
  prefix_or_addr s = elim (parse_prefix s) [
    | some p ↦ some p
    | none ↦ elim (parse_addr s) [
      | none ↦ none
      | some ip ↦
          if not (is_nil (zone ip)) then none else some (record { addr = ip; bits = bit_len ip })
    ]
  ]

  unfoldable pub parse_trusted_prefix : Bytes → Option Prefix
  unfolding masked unmap bit_len
  parse_trusted_prefix s = elim (prefix_or_addr s) [
    | none ↦ none
    | some p ↦ some (masked (unmap_prefix p))
  ]

  -- the loop, with the prefixes and the invalid entries so far; `trim_space` is strings.TrimSpace
  unfoldable pub parse_cidrs :
      (Bytes → Bytes) → List Bytes → List Prefix × List Bytes → List Prefix × List Bytes
  unfolding parse_trusted_prefix
  parse_cidrs trim_space [] acc = acc
  parse_cidrs trim_space (e ∷ entries) (prefixes, invalid) =
      let s = trim_space e in
      let acc' : List Prefix × List Bytes =
        if is_nil s then (prefixes, invalid) else elim (parse_trusted_prefix s) [
          | some p ↦ (prefixes ++ p ∷ [], invalid)
          | none ↦ (prefixes, invalid ++ s ∷ [])
        ] in
      parse_cidrs trim_space entries acc'

  self_trusted :
      (ip : Addr)
      → is_valid ip ≡ true
      → zone ip ≡ []
      → in_trusted (unmap ip) (masked (unmap_prefix (record { addr = ip; bits = bit_len ip })) ∷ [])
        ≡ true
  unfolding in_trusted masked unmap bit_len
  self_trusted zero_addr v h = cc
  self_trusted (v4 n) v h = ground arith
  self_trusted (v6 n z) v h = elim (Bool-cases (is4_in_6 (v6 n z))) [
    | inl mapped ↦ rw mapped (ground arith)
    | inr plain ↦ rw plain (ground arith)
  ]

  -- A configured address that parses trusts that very address, also in its IPv4-mapped form.
  pub parse_trusted_prefix-trusts :
      (s : Bytes) (ip : Addr)
      → parse_prefix s ≡ none
      → parse_addr s ≡ some ip
      → is_valid ip ≡ true
      → zone ip ≡ []
      → (p : Prefix) × (parse_trusted_prefix s ≡ some p) × (in_trusted (unmap ip) (p ∷ []) ≡ true)
  unfolding parse_trusted_prefix
  parse_trusted_prefix-trusts s ip no_prefix found valid no_zone = (
    masked (unmap_prefix (record { addr = ip; bits = bit_len ip })),
    ground arith,
    self_trusted ip valid no_zone,
  )
