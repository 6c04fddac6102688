-- ===== src/Gzip.antt =====
-- gzip.go: which responses are compressed. The writer that does it is in `Writer`.
pub mod Weight
pub mod Writer
pub mod Sending
pub mod Settled
pub mod Writing
pub mod Marked
pub mod Vary
pub mod Negotiated
pub mod Calls
pub mod Serve
pub mod Panic
pub mod Recorded
pub mod Body
mod Tests
mod Examples
use webhttp.Prelude.{
  ℕ, Bool, true, false, ◌&&◌, ◌||◌, not, List, [], ◌∷◌, ◌++◌, Option, none, some, ◌==◌, leb, within,
  if◌then◌else◌, is_nil, all, any, length, Bytes, codes, eq_bytes, contains_byte, cut_prefix,
  cut_byte, split_byte, trim, ◌>>=◌,
}
use webhttp.AsciiFold.{equal_ascii_fold, lower_ascii_string}
use webhttp.FieldList.{token_list, field_list, token_len, is_ows}
use webhttp.Header.{Header, get, add}
use webhttp.Http.{Request}

pub record GzipConfig : Type 0 where
  pub skip : Option (Request → Bool)
  pub types : List Bytes
  pub min_bytes : ℕ

-- `strings.Cut(s, b)` as the code uses it: all of `s` and nothing where there is no `b`
abbrev cut_or_all : ℕ → Bytes → Bytes × Bytes
cut_or_all b s = elim (cut_byte b s) [ none ↦ (s, []) | some parts ↦ parts ]

-- the last `b` and what follows it, as a structured suffix; empty where there is none
last_suffix : ℕ → Bytes → Bytes
last_suffix b [] = []
last_suffix b (c ∷ s) =
    let rest = last_suffix b s in if not (is_nil rest) then rest else if c == b then c ∷ s else []

unfoldable pub is_token : Bytes → Bool
unfolding token_len
is_token s = not (is_nil s) && token_len s == length s

-- `none` is `ok == false`, for which WithGzipTypes panics
unfoldable pub gzip_type_entry : Bytes → Option Bytes
unfolding is_token
gzip_type_entry entry =
    let e = lower_ascii_string entry in
    if contains_byte b'*' e then none else elim (cut_prefix (codes "+") e) [
      | some suffix ↦ if is_token suffix && not (contains_byte b'+' suffix) then some e else none
      | none ↦ elim (cut_byte b'/' e) [
        | none ↦ none
        | some (typ, sub) ↦ if is_token typ && is_token sub then some e else none
      ]
    ]

-- `media_type` is mime.ParseMediaType's type, `none` where it fails.
module _ (media_type : Bytes → Option Bytes) where
  unfoldable pub compressible : GzipConfig → Bytes → Bool
  unfolding last_suffix
  compressible c content_type = elim (media_type content_type) [
    | none ↦ false
    | some mt ↦
        let suffix = last_suffix b'+' (cut_or_all b'/' mt).1 in
        any (λ t. eq_bytes t mt || eq_bytes t suffix) c.types
  ]

  unfoldable pub candidate : GzipConfig → ℕ → Header → Bool
  unfolding compressible
  candidate c status h =
      within 200 599 status
      && not (status == 204)
      && is_nil (get (codes "Content-Encoding") h)
      && compressible c (get (codes "Content-Type") h)

unfoldable pub compresses_status : ℕ → Bool
compresses_status status = not (status == 206) && not (status == 304)

unfoldable pub zero_q_value : Bytes → Bool
zero_q_value v = elim (cut_prefix (codes "0") v) [
  | none ↦ false
  | some frac ↦ if is_nil frac then true else elim (cut_prefix (codes ".") frac) [
    | none ↦ false
    | some zeros ↦ leb (length zeros) 3 && all (λ c. c == b'0') zeros
  ]
]

-- the loop over an element's parameters; the result is `offered`
params_offer : List Bytes → Bool
params_offer [] = true
params_offer (param ∷ params) =
    let (name, value) = cut_or_all b'=' param in
    let rest = params_offer params in
    if equal_ascii_fold (trim is_ows name) (codes "q")
    then not (zero_q_value (trim is_ows value))
    else rest

-- the coding and whether it is offered
unfoldable pub encoding_offer : Bytes → Bytes × Bool
unfolding params_offer zero_q_value
encoding_offer elem =
    let (coding, params) = cut_or_all b';' elem in
    (trim is_ows coding, params_offer (split_byte b';' params))

-- the loop of `acceptsGzip`, with its `wildcard`
offers_loop : Bool → List Bytes → Bool
offers_loop wildcard [] = wildcard
offers_loop wildcard (elem ∷ elems) =
    let (coding, offered) = encoding_offer elem in
    let rest = offers_loop (if eq_bytes coding (codes "*") then offered else wildcard) elems in
    if equal_ascii_fold coding (codes "gzip") || equal_ascii_fold coding (codes "x-gzip")
    then offered
    else rest

unfoldable pub accepts_gzip : Header → Bool
unfolding offers_loop encoding_offer field_list
accepts_gzip h = offers_loop false (field_list h (codes "Accept-Encoding") token_list)

unfoldable pub add_vary_accept_encoding : Header → Header
unfolding add
add_vary_accept_encoding h =
    if any (λ elem. eq_bytes elem (codes "*") || equal_ascii_fold elem (codes "Accept-Encoding"))
      (field_list h (codes "Vary") token_list)
    then h
    else add (codes "Vary") (codes "Accept-Encoding") h
