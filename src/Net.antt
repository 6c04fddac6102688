-- ===== src/Net.antt =====
-- What the code uses of Go's net and net/netip: addresses as numbers, prefixes, and the split of
-- "host:port". The text grammars of addresses are the parameter `AddrText`.
mod Tests
use Prim.Native.Nat.{◌^◌}
use webhttp.Prelude.{
  ℕ, suc, ◌+◌, ◌-◌, ◌*◌, ◌/◌, ◌%◌, Bool, true, false, ◌&&◌, ◌||◌, not, List, [], ◌∷◌, Option, none,
  some, ◌==◌, leb, if◌then◌else◌, is_nil, Bytes, codes, contains_byte, cut_prefix, cut_byte, ◌>>=◌,
}

-- netip.Addr: the zero Addr, an IPv4 address, an IPv6 address with its zone
pub data Addr : Type 0 where
  zero_addr : Addr
  v4 : ℕ → Addr
  v6 : ℕ → Bytes → Addr

abbrev pub is_valid : Addr → Bool
is_valid zero_addr = false
is_valid _ = true

abbrev pub is4 : Addr → Bool
is4 (v4 n) = true
is4 _ = false

abbrev pub is6 : Addr → Bool
is6 (v6 n z) = true
is6 _ = false

abbrev pub zone : Addr → Bytes
zone (v6 n z) = z
zone _ = []

abbrev pub is4_in_6 : Addr → Bool
is4_in_6 (v6 n z) = n / 2 ^ 32 == 0xffff
is4_in_6 _ = false

unfoldable pub unmap : Addr → Addr
unmap zero_addr = zero_addr
unmap (v4 n) = v4 n
unmap (v6 n z) = if n / 2 ^ 32 == 0xffff then v4 (n % 2 ^ 32) else v6 n z

-- `netip.AddrFrom16(ip.As16())`
unfoldable pub as_16 : Addr → Addr
as_16 zero_addr = v6 0 []
as_16 (v4 n) = v6 (0xffff * 2 ^ 32 + n) []
as_16 (v6 n z) = v6 n []

unfoldable pub bit_len : Addr → ℕ
bit_len zero_addr = 0
bit_len (v4 n) = 32
bit_len (v6 n z) = 128

-- netip.Prefix; one that is not valid has more bits than its address, or no address
pub record Prefix : Type 0 where
  pub addr : Addr
  pub bits : ℕ

-- `n` and `m` agree in all but the last `k` bits
abbrev same_net : ℕ → ℕ → ℕ → Bool
same_net k n m = n / 2 ^ k == m / 2 ^ k

abbrev contains_in : Addr → ℕ → Addr → Bool
contains_in (v4 n) bits (v4 m) = leb bits 32 && same_net (32 - bits) n m
contains_in (v6 n z) bits (v6 m z') = leb bits 128 && is_nil z' && same_net (128 - bits) n m
contains_in _ bits _ = false

unfoldable pub contains : Prefix → Addr → Bool
contains p ip = contains_in p.addr p.bits ip

-- `p.Masked()` of a valid prefix
abbrev mask : ℕ → ℕ → ℕ
mask k n = n / 2 ^ k * 2 ^ k

abbrev mask_addr : ℕ → Addr → Addr
mask_addr bits zero_addr = zero_addr
mask_addr bits (v4 n) = v4 (mask (32 - bits) n)
mask_addr bits (v6 n z) = v6 (mask (128 - bits) n) []

unfoldable pub masked : Prefix → Prefix
masked p = record p { addr = mask_addr p.bits p.addr }

-- The text grammars and range tables of the standard library, which the theorems leave open.
pub record AddrText : Type 0 where
  -- netip.ParseAddr; `none` is an error
  pub parse_addr : Bytes → Option Addr
  -- netip.ParseAddrPort, its address alone
  pub parse_addr_port : Bytes → Option Addr
  -- netip.ParsePrefix
  pub parse_prefix : Bytes → Option Prefix
  pub is_global_unicast : Addr → Bool
  pub is_private : Addr → Bool

-- `hostport` at its last colon
cut_last_colon : Bytes → Option (Bytes × Bytes)
cut_last_colon [] = none
cut_last_colon (c ∷ s) = elim (cut_last_colon s) [
  | some (before, after) ↦ some (c ∷ before, after)
  | none ↦ if c == b':' then some ([], s) else none
]

abbrev require : Bool → Option (Unit {0})
require b = if b then some tt else none

-- behind the "[" of a bracketed host
split_bracketed : Bytes → Option Bytes
split_bracketed s = do
  (host, after) ← cut_byte b']' s
  port ← cut_prefix (codes ":") after
  _ ← require (not (contains_byte b':' port))
  _ ← require (not (contains_byte b'[' host || contains_byte b'[' port))
  _ ← require (not (contains_byte b']' port))
  some host

split_plain : Bytes → Option Bytes
split_plain s = do
  (host, port) ← cut_last_colon s
  _ ← require (not (contains_byte b':' host))
  _ ← require (not (contains_byte b'[' s))
  _ ← require (not (contains_byte b']' s))
  some host

-- The host of `net.SplitHostPort`; `none` is an error.
unfoldable pub split_host_port : Bytes → Option Bytes
unfolding cut_last_colon split_bracketed split_plain
split_host_port [] = none
split_host_port (c ∷ s) = if c == b'[' then split_bracketed s else split_plain (c ∷ s)
