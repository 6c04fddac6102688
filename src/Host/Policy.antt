-- ===== src/Host/Policy.antt =====
-- What the allowlist policy that a configuration gives admits.
use webhttp.Prelude.{
  Bool, true, ◌&&◌, ◌||◌, not, List, [], ◌∷◌, ◌++◌, map, Option, none, some, ◌≡◌, refl, ap, ◌∙◌,
  Bytes, is_nil, eq_bytes, eq_bytes_iff, has, insert, any, keep, arith, append-nil, append_assoc,
  Bool-cases, inl, inr,
}
use webhttp.Http.{Request}
use webhttp.Host.{
  HostText, canonical_host, is_loopback_host, is_loopback_peer, HostPolicy, HostAllowlistOption,
  apply_option, host_policy, default_policy, add_entry, add_entries, parse_host_list, allows,
}

has-append : (k s : Bytes) (ts : List Bytes) → has k (ts ++ s ∷ []) ≡ (has k ts || eq_bytes s k)
has-append k s [] = ground arith
has-append k s (t ∷ ts) = ground (arith, has-append k s ts)

has-insert : (k s : Bytes) (ts : List Bytes) → has k (insert s ts) ≡ (has k ts || eq_bytes s k)
has-insert k s ts = elim (Bool-cases (has s ts)) [
  | inr new ↦ rw new (has-append k s ts)
  | inl old ↦ elim (Bool-cases (eq_bytes s k)) [
    | inr other ↦ rw (old, other) (ground arith)
    | inl same ↦
        let e = (eq_bytes_iff s k).0 same in
        let there : has k ts ≡ true = rw e at old in rw (old, same, there)
  ]
]

-- options decide the exemption and the error, and leave the list alone
apply_option_frame :
    (o : HostAllowlistOption) (p : HostPolicy)
    → ((apply_option o p).active ≡ p.active) × ((apply_option o p).allowed ≡ p.allowed)
unfolding apply_option
apply_option_frame (HostAllowlistOption.with_loopback_exempt b) p = (refl, refl)
apply_option_frame (HostAllowlistOption.with_host_allowlist_error c m) p = (refl, refl)

host_policy_frame :
    (opts : List (Option HostAllowlistOption)) (p : HostPolicy)
    → ((host_policy opts p).active ≡ p.active) × ((host_policy opts p).allowed ≡ p.allowed)
unfolding host_policy
host_policy_frame [] p = (refl, refl)
host_policy_frame (none ∷ opts) p = host_policy_frame opts p
host_policy_frame (some o ∷ opts) p =
    let (a, l) = host_policy_frame opts (apply_option o p) in
    let (a', l') = apply_option_frame o p in (a ∙ a', l ∙ l')

module _ (text : HostText) where
  open text use {trim_space}

  abbrev pub is_blank : Bytes → Bool
  is_blank e = is_nil (trim_space e)

  abbrev pub key_of : Bytes → Bytes
  key_of e = canonical_host text (trim_space e)

  abbrev pub is_invalid : Bytes → Bool
  is_invalid e = not (is_blank e) && is_nil (key_of e)

  -- The entry names the host `k`.
  abbrev pub lists : Bytes → Bytes → Bool
  lists k e = not (is_blank e) && not (is_nil (key_of e)) && eq_bytes (key_of e) k

  record Adds (es : List Bytes) (p : HostPolicy) (inv : List Bytes) (p' : HostPolicy)
      (inv' : List Bytes) : Type 0 where
    active : p'.active ≡ (p.active || any (λ e. not (is_blank e)) es)
    allowed : (k : Bytes) → has k p'.allowed ≡ (has k p.allowed || any (lists k) es)
    exempt : p'.loopback_exempt ≡ p.loopback_exempt
    invalid : inv' ≡ inv ++ map trim_space (keep is_invalid es)

  add_entry-Adds :
      (e : Bytes) (p : HostPolicy) (inv : List Bytes)
      → let acc = add_entry text e (p, inv) in Adds (e ∷ []) p inv acc.0 acc.1
  unfolding add_entry
  add_entry-Adds e p inv = record {
    active = ground arith;
    allowed = λ k. ground (arith, has-insert k (key_of e) p.allowed);
    exempt = ground arith;
    invalid = ground (arith, append-nil inv);
  }

  bad_head :
      (e : Bytes) (es : List Bytes)
      → map trim_space (keep is_invalid (e ∷ [])) ++ map trim_space (keep is_invalid es)
        ≡ map trim_space (keep is_invalid (e ∷ es))
  bad_head e es = ground arith

  add_entries-Adds :
      (es : List Bytes) (p : HostPolicy) (inv : List Bytes)
      → let acc = add_entries text es (p, inv) in Adds es p inv acc.0 acc.1
  unfolding add_entries
  add_entries-Adds [] p inv = record {
    active = ground arith;
    allowed = λ k. ground arith;
    exempt = refl;
    invalid = ground (arith, append-nil inv);
  }
  add_entries-Adds (e ∷ es) p inv =
      let acc = add_entry text e (p, inv) in
      let head = add_entry-Adds e p inv in
      let tail = add_entries-Adds es acc.0 acc.1 in
      record {
        active = tail.active ∙ rw head.active (ground arith);
        allowed = λ k. tail.allowed k ∙ rw (head.allowed k) (ground arith);
        exempt = tail.exempt ∙ head.exempt;
        invalid = tail.invalid ∙ rw (head.invalid, append_assoc) (ap (◌++◌ inv) (bad_head e es));
      }

  -- What the configured policy answers for a request, from the entries and the options alone.
  abbrev pub admits : List Bytes → Bool → Request → Bool
  admits entries exempt r =
      let host = canonical_host text r.host in
      not (any (λ e. not (is_blank e)) entries)
      || any (lists host) entries
      || exempt && is_loopback_host text host && is_loopback_peer text r.remote_addr

  -- The policy of a configuration with the given entries admits a request exactly if no entry is
  -- non-blank, or the canonical form of its Host is not empty and is that of an entry, or the exemption
  -- is on and its Host and its peer are both loopback. The entries reported as invalid are the
  -- non-blank ones with no canonical form, trimmed, in order.
  pub parse_host_list-admits :
      (entries : List Bytes) (opts : List (Option HostAllowlistOption)) (r : Request)
      → let (p, invalid) = parse_host_list text entries opts in
        (allows text (some p) r
          ≡ admits entries (host_policy opts default_policy).loopback_exempt r)
        × (invalid ≡ map trim_space (keep is_invalid entries))
  unfolding parse_host_list allows
  parse_host_list-admits entries opts r =
      let p = host_policy opts default_policy in
      let (active, allowed) = host_policy_frame opts default_policy in
      let adds = add_entries-Adds entries p [] in
      let host = canonical_host text r.host in
      let listed : has host (add_entries text entries (p, [])).0.allowed
          ≡ any (lists host) entries =
        adds.allowed host ∙ rw allowed in
      let engaged : (add_entries text entries (p, [])).0.active
          ≡ any (λ e. not (is_blank e)) entries =
        adds.active ∙ rw active in
      (rw (listed, engaged, adds.exempt) (ground arith), adds.invalid)
