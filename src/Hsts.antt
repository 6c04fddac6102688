-- ===== src/Hsts.antt =====
-- middleware.go: the Strict-Transport-Security policy. A negative MaxAge is 0 here, as in the header.
use webhttp.Prelude.{
  ℕ, ◌*◌, ◌/◌, Bool, true, false, ◌&&◌, not, ◌++◌, Option, none, some, ltb, if◌then◌else◌, Bytes,
  codes, itoa,
}
use webhttp.Middleware.{SecurityOption, with_hsts_header}

-- 365 * 24 hours in nanoseconds
abbrev pub hsts_preload_min_max_age : ℕ
hsts_preload_min_max_age = 365 * 24 * 3_600_000_000_000

pub data HstsError : Type 0 where
  preload_without_subdomains preload_max_age_too_short : HstsError

pub record Hsts : Type 0 where
  pub max_age : ℕ
  pub include_subdomains : Bool
  pub preload : Bool

unfoldable pub validate : Hsts → Option HstsError
validate h =
    if not h.preload
    then none
    else if not h.include_subdomains
    then some preload_without_subdomains
    else if ltb h.max_age hsts_preload_min_max_age
    then some preload_max_age_too_short
    else none

abbrev is_valid : Option HstsError → Bool
is_valid none = true
is_valid (some e) = false

unfoldable pub hsts_header : Hsts → Bytes
unfolding validate
hsts_header h =
    let age = codes "max-age=" ++ itoa (h.max_age / 1_000_000_000) in
    let subdomains = if h.include_subdomains then age ++ codes "; includeSubDomains" else age in
    if h.preload && is_valid (validate h) then subdomains ++ codes "; preload" else subdomains

-- the warning for a policy that is not valid is left out
unfoldable pub with_hsts : Hsts → SecurityOption
unfolding hsts_header
with_hsts policy = with_hsts_header (hsts_header policy)
