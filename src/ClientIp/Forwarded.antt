-- ===== src/ClientIp/Forwarded.antt =====
-- clientip.go: the grammar of one Forwarded element, RFC 7239 section 4, and of a node, section 6.
pub mod Quoting
pub mod Fuel
use webhttp.Prelude.{
  ℕ, zero, suc, Bool, true, false, ◌&&◌, ◌||◌, not, List, [], ◌∷◌, ◌++◌, Option, none, some, ◌==◌,
  leb, within, if◌then◌else◌, is_nil, any, all, length, take, drop, Bytes, codes, contains_byte,
  cut_prefix, cut_byte, ◌>>=◌,
}
use webhttp.AsciiFold.{equal_ascii_fold}
use webhttp.FieldList.{token_len, qdtext_byte, quoted_pair_byte}
use webhttp.Net.{Addr, zero_addr, is6, zone, unmap, AddrText}

abbrev pub max_forwarded_pairs : ℕ
max_forwarded_pairs = 16

pub record ForwardedElement : Type 0 where
  pub for_node : Addr
  pub valid : Bool

-- `forwardedElement{}`
abbrev pub zero_element : ForwardedElement
zero_element = record { for_node = zero_addr; valid = false }

-- the loop of `cutForwardedValue`, behind the opening quote
unquote_from : Bytes → Bytes → Option (Bytes × Bytes)
unquote_from b [] = none
unquote_from b (c ∷ []) = if c == b'"' then some (b, []) else none
unquote_from b (c ∷ (d ∷ s)) =
    let escaped = unquote_from (b ++ d ∷ []) s in
    let plain = unquote_from (b ++ c ∷ []) (d ∷ s) in
    if c == b'"'
    then some (b, d ∷ s)
    else if c == b'\\' && quoted_pair_byte d
    then escaped
    else if qdtext_byte c
    then plain
    else none

cut_token : Bytes → Option (Bytes × Bytes)
cut_token s = let n = token_len s in if n == 0 then none else some (take n s, drop n s)

-- the value decoded, and the rest
pub cut_forwarded_value : Bytes → Option (Bytes × Bytes)
unfolding unquote_from
cut_forwarded_value s = elim (cut_prefix (codes "\"") s) [
  | none ↦ cut_token s
  | some quoted ↦ unquote_from [] quoted
]

-- `rest == "" || rest[0] == ';'`
abbrev ends_pair : Bytes → Bool
ends_pair [] = true
ends_pair (c ∷ s) = c == b';'

pub record Pair : Type 0 where
  pub name : Bytes
  pub value : Bytes
  pub rest : Bytes

cut_forwarded_pair : Bytes → Option Pair
cut_forwarded_pair s =
    let n = token_len s in
    if n == 0 then none else do
      after ← cut_prefix (codes "=") (drop n s)
      (value, rest) ← cut_forwarded_value after
      if ends_pair rest then some (record { name = take n s; value = value; rest = rest }) else none

abbrev obfuscated_byte : ℕ → Bool
obfuscated_byte c =
    within b'A' b'Z' c
    || within b'a' b'z' c
    || within b'0' b'9' c
    || c == b'.'
    || c == b'_'
    || c == b'-'

-- `strings.Trim(rest, cutset) == ""`: every byte is in the cut set
obfuscated : Bytes → Bool
obfuscated s = elim (cut_prefix (codes "_") s) [
  | none ↦ false
  | some rest ↦ not (is_nil rest) && all obfuscated_byte rest
]

valid_node_port : Bytes → Bool
unfolding obfuscated
valid_node_port port =
    obfuscated port || not (is_nil port) && leb (length port) 5 && all (within b'0' b'9') port

-- the name and the port of a node; the inner `none` is `!hasPort`
abbrev split_node : Bytes → Option (Bytes × Option Bytes)
split_node node = elim (cut_byte b':' node) [
  | none ↦ some (node, none)
  | some (name, port) ↦ some (name, some port)
]

abbrev split_bracketed_node : Bytes → Option (Bytes × Option Bytes)
split_bracketed_node inner = do
  (name, after) ← cut_byte b']' inner
  elim (cut_prefix (codes ":") after) [
    | some port ↦ some (name, some port)
    | none ↦ if is_nil after then some (name, none) else none
  ]

abbrev bad_port : Option Bytes → Bool
bad_port none = false
bad_port (some port) = not (valid_node_port port)

eq_bool : Bool → Bool → Bool
eq_bool true b = b
eq_bool false b = not b

module _ (text : AddrText) where
  open text use {parse_addr}

  node_addr : Bool → Bytes → Option Addr
  node_addr bracketed name =
      if not bracketed && (equal_ascii_fold name (codes "unknown") || obfuscated name)
      then some zero_addr
      else do
        ip ← parse_addr name
        if not (eq_bool (is6 ip) bracketed) || not (is_nil (zone ip)) then none else some (unmap ip)

  -- `none` is `ok == false`
  parse_node : Bytes → Option Addr
  parse_node node =
      let inner = cut_prefix (codes "[") node in
      let bracketed : Bool = elim inner [ none ↦ false | some _ ↦ true ] in
      do
        (name, port) ← elim inner [ none ↦ split_node node | some s ↦ split_bracketed_node s ]
        if bad_port port then none else node_addr bracketed name

  -- the `switch` on a pair's name: the for= node so far and the new one
  pair_node : Pair → Addr → Option Addr
  pair_node p for_node =
      if equal_ascii_fold p.name (codes "for")
      then parse_node p.value
      else if equal_ascii_fold p.name (codes "by")
      then elim (parse_node p.value) [ none ↦ none | some _ ↦ some for_node ]
      else some for_node

  -- The loop of `parseForwardedElement`; `none` means that the fuel ran out.
  pub element_loop : ℕ → Addr → List Bytes → Bytes → Option ForwardedElement
  element_loop zero for_node seen rest = none
  element_loop (suc fuel) for_node seen [] = some (record { for_node = for_node; valid = true })
  element_loop (suc fuel) for_node seen (c ∷ s) =
      let skipped = element_loop fuel for_node seen s in
      if c == b';'
      then skipped
      else if length seen == max_forwarded_pairs
      then some zero_element
      else elim (cut_forwarded_pair (c ∷ s)) [
        | none ↦ some zero_element
        | some p ↦
            if any (λ name. equal_ascii_fold name p.name) seen
            then some zero_element
            else elim (pair_node p for_node) [
              | none ↦ some zero_element
              | some for_node' ↦ element_loop fuel for_node' (seen ++ p.name ∷ []) p.rest
            ]
      ]

  abbrev element_or_zero : Option ForwardedElement → ForwardedElement
  element_or_zero none = zero_element
  element_or_zero (some e) = e

  -- Each round takes a byte at least, so one more round than the bytes is enough.
  unfoldable pub parse_forwarded_element : Bytes → ForwardedElement
  unfolding element_loop pair_node cut_forwarded_pair cut_forwarded_value cut_token parse_node
      node_addr eq_bool valid_node_port qdtext_byte quoted_pair_byte token_len
  parse_forwarded_element elem =
      element_or_zero (element_loop (suc (length elem)) zero_addr [] elem)
