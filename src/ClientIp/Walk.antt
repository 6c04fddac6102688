-- ===== src/ClientIp/Walk.antt =====
-- The bound on a field's elements, and what the walk from the right finds.
use mathlib.Core.List.{reverse, reverse-append, reverse-reverse, reverse-cons}
use webhttp.Prelude.{
  ◌+◌, ◌≤◌, ◌<◌, true, false, List, [], ◌∷◌, ◌++◌, map, some, ◌≡◌, sym, ◌↔◌, length, length-append,
  Bytes, All, append_assoc, append-nil, arith, All-reverse, ◌⊎◌, inl, inr,
}
use webhttp.Net.{Addr, Prefix}
use webhttp.ClientIp.{
  ListEntry, Forwarding, in_trusted, bounded_loop, walk, client, max_forwarding_hops,
}

module _ {T : Type 0} (zero : T) (parse : Bytes → T) where
  pub bounded_loop_within :
      (elems : List T) (es : List Bytes)
      → length elems + length es ≤ max_forwarding_hops
      → bounded_loop zero parse elems es ≡ elems ++ map parse es
  unfolding bounded_loop
  bounded_loop_within elems [] h = sym (append-nil elems)
  bounded_loop_within elems (e ∷ es) h = ground (
    arith,
    bounded_loop_within (elems ++ parse e ∷ []) es,
    length-append elems (parse e ∷ []),
    append_assoc elems (parse e ∷ []) (map parse es),
  )

  pub bounded_loop_over :
      (elems : List T) (es : List Bytes)
      → length elems ≤ max_forwarding_hops
      → max_forwarding_hops < length elems + length es
      → bounded_loop zero parse elems es ≡ zero ∷ []
  unfolding bounded_loop
  bounded_loop_over elems [] h k = absurd (omega arith)
  bounded_loop_over elems (e ∷ es) h k =
      ground
        (arith, bounded_loop_over (elems ++ parse e ∷ []) es, length-append elems (parse e ∷ []))

module _ (trusted : List Prefix) where
  -- A hop that the walk goes past: an address alone, inside the trusted set.
  abbrev pub IsTrustedHop : ListEntry → Type 0
  IsTrustedHop e = (e.bare ≡ true) × (in_trusted e.addr trusted ≡ true)

  -- `ip` is the right-most entry outside the trusted set, with trusted hops alone to its right.
  pub record IsClient (entries : List ListEntry) (ip : Addr) : Type 0 where
    pub before : List ListEntry
    pub entry : ListEntry
    pub hops : List ListEntry
    pub splits : entries ≡ before ++ entry ∷ hops
    pub trusted_hops : All IsTrustedHop hops
    pub bare : entry.bare ≡ true
    pub is_ip : entry.addr ≡ ip
    pub untrusted : in_trusted ip trusted ≡ false

  -- the same from the right
  abbrev Finds : List ListEntry → Addr → Type 0
  Finds [] ip = ⊥
  Finds (e ∷ rest) ip =
      (e.bare ≡ true)
      × ((e.addr ≡ ip) × (in_trusted ip trusted ≡ false)
          ⊎ (in_trusted e.addr trusted ≡ true) × Finds rest ip)

  walk-Finds : (l : List ListEntry) (ip : Addr) → (walk trusted l ≡ some ip) ↔ Finds l ip
  unfolding walk
  walk-Finds [] ip = ground arith
  walk-Finds (e ∷ rest) ip = ground (arith, walk-Finds rest ip)

  pub walk-append :
      (l m : List ListEntry) (ip : Addr)
      → walk trusted l ≡ some ip
      → walk trusted (l ++ m) ≡ some ip
  unfolding walk
  walk-append [] m ip h = cc
  walk-append (e ∷ l) m ip h = ground (arith, walk-append l m ip)

  Finds-append :
      (hops rest : List ListEntry) (ip : Addr)
      → All IsTrustedHop hops
      → Finds rest ip
      → Finds (hops ++ rest) ip
  Finds-append [] rest ip h f = f
  Finds-append (e ∷ hops) rest ip (t, h) f = (t.0, inr (t.1, Finds-append hops rest ip h f))

  Finds-reverse :
      {entries : List ListEntry} {ip : Addr} → IsClient entries ip → Finds (reverse entries) ip
  Finds-reverse c =
      rw (c.splits, reverse-append, reverse-cons, append_assoc)
        (Finds-append (reverse c.hops) _ _ (All-reverse IsTrustedHop c.hops c.trusted_hops)
          (c.bare, inl (c.is_ip, c.untrusted)))

  -- `seen` are the trusted hops to the right of the entries still to be read
  IsClient-of_Finds :
      (l seen : List ListEntry) {ip : Addr}
      → All IsTrustedHop seen
      → Finds l ip
      → IsClient (reverse l ++ seen) ip
  IsClient-of_Finds [] seen h f = absurd f
  IsClient-of_Finds (e ∷ l) seen h (bare, inl (is_ip, out)) = record {
    before = reverse l;
    entry = e;
    hops = seen;
    splits = rw (reverse-cons, append_assoc);
    trusted_hops = h;
    bare = bare;
    is_ip = is_ip;
    untrusted = out;
  }
  IsClient-of_Finds (e ∷ l) seen h (bare, inr (t, f)) =
      rw (reverse-cons, append_assoc) (IsClient-of_Finds l (e ∷ seen) ((bare, t), h) f)

  -- The walk answers exactly the right-most untrusted entry that only trusted hops follow.
  pub client_iff : (f : Forwarding) (ip : Addr) → (client f trusted ≡ some ip) ↔ IsClient f.xff ip
  unfolding client
  client_iff f ip = (
    λ e.
        rw (reverse-reverse f.xff, append-nil) at
          (IsClient-of_Finds (reverse f.xff) [] tt ((walk-Finds (reverse f.xff) ip).0 e)),
    λ c. (walk-Finds (reverse f.xff) ip).1 (Finds-reverse c),
  )
