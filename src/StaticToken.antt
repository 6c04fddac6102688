-- ===== src/StaticToken.antt =====
-- statictoken.go: a fixed token, kept as its digest. The digest is a parameter, crypto/sha256; the
-- comparison in constant time is an equality.
use webhttp.Prelude.{Bool, true, false, not, Bytes, is_nil, eq_bytes, if◌then◌else◌, codes}

pub record StaticTokenVerifier : Type 0 where
  pub digest : Bytes
  pub is_set : Bool

module _ (sha256 : Bytes → Bytes) where
  unfoldable pub new_static_token_verifier : Bytes → StaticTokenVerifier
  new_static_token_verifier configured =
      if is_nil configured
      then record { digest = codes ""; is_set = false }
      else record { digest = sha256 configured; is_set = true }

  unfoldable pub verify : StaticTokenVerifier → Bytes → Bool
  verify v presented = if not v.is_set then false else eq_bytes v.digest (sha256 presented)
