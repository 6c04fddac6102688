-- ===== src/ClientIp/Spoof.antt =====
-- What a client writes ahead of its proxies' entries in X-Forwarded-For does not move its address.
use mathlib.Core.List.{reverse, reverse-append, map-append}
use webhttp.Prelude.{
  ◌≤◌, true, false, List, [], ◌∷◌, ◌++◌, map, some, ◌≡◌, ap, ◌∙◌, length, length-append, Bytes,
  codes, join, arith, Option-cases, inl, inr,
}
use webhttp.Header.{Header, values}
use webhttp.FieldList.{token_list, field_elements, field_list}
use webhttp.FieldList.Laws.{field_elements-append}
use webhttp.Net.{Addr, Prefix, AddrText}
use webhttp.Http.{Request}
use webhttp.ClientIp.{
  zero_entry, in_trusted, client, max_forwarding_hops, parse_bounded, parse_list_entry,
  parse_forwarding, resolve_client, peer_of,
}
use webhttp.ClientIp.Walk.{bounded_loop_within, walk-append}

-- the X-Forwarded-For lines of a request, joined
abbrev pub xff_field : Header → Bytes
xff_field h = join (codes ",") (values (codes "X-Forwarded-For") h)

abbrev pub xff_elements : Header → List Bytes
xff_elements h = field_elements token_list (xff_field h)

module _ (text : AddrText) (trusted : List Prefix) where
  xff-eq-map :
      (h : Header)
      → length (xff_elements h) ≤ max_forwarding_hops
      → (parse_forwarding text h).xff ≡ map (parse_list_entry text) (xff_elements h)
  unfolding parse_forwarding parse_bounded field_list
  xff-eq-map h le =
      bounded_loop_within zero_entry (parse_list_entry text) [] (xff_elements h) (omega arith)

  client-append :
      (h h' : Header) (s : Bytes) (ip : Addr)
      → xff_field h' ≡ s ++ b',' ∷ xff_field h
      → length (xff_elements h') ≤ max_forwarding_hops
      → client (parse_forwarding text h) trusted ≡ some ip
      → client (parse_forwarding text h') trusted ≡ some ip
  unfolding client
  client-append h h' s ip e le found =
      let parse = parse_list_entry text in
      let elements = ap (field_elements token_list) e ∙ field_elements-append s (xff_field h) in
      let longer =
        ap length elements ∙ length-append (field_elements token_list s) (xff_elements h) in
      let short : length (xff_elements h) ≤ max_forwarding_hops = omega arith in
      rw (xff-eq-map h' le, elements, map-append, reverse-append)
        (walk-append trusted (reverse (map parse (xff_elements h))) _ ip
          (rw (xff-eq-map h short) at found))

  resolved_from :
      (r : Request)
      → (resolve_client text r trusted).forwarded ≡ true
      → (in_trusted (peer_of text r) trusted ≡ true)
        × (ip : Addr) × (client (parse_forwarding text r.header) trusted ≡ some ip)
  unfolding resolve_client
  resolved_from r h = elim (Option-cases (client (parse_forwarding text r.header) trusted)) [
    | inl missing ↦ absurd (ground arith)
    | inr (ip, found) ↦ (ground arith, ip, found)
  ]

  resolve_at :
      (r : Request) (ip : Addr)
      → in_trusted (peer_of text r) trusted ≡ true
      → client (parse_forwarding text r.header) trusted ≡ some ip
      → resolve_client text r trusted ≡ record {
        ip = ip;
        peer = peer_of text r;
        forwarded = true;
        untrusted_forwarding = false;
        ignored_public = false;
      }
  unfolding resolve_client
  resolve_at r ip t found = rw (t, found)

  peer_of-eq : (r r' : Request) → r'.remote_addr ≡ r.remote_addr → peer_of text r' ≡ peer_of text r
  unfolding peer_of
  peer_of-eq r r' e = rw e

  -- Let a request resolve to an entry of X-Forwarded-For. Whatever a client puts in front of that
  -- field, the whole having at most 64 elements, the answer is the same in every field.
  pub resolve_client-prepend :
      (r r' : Request) (forged : Bytes)
      → r'.remote_addr ≡ r.remote_addr
      → xff_field r'.header ≡ forged ++ b',' ∷ xff_field r.header
      → length (xff_elements r'.header) ≤ max_forwarding_hops
      → (resolve_client text r trusted).forwarded ≡ true
      → resolve_client text r' trusted ≡ resolve_client text r trusted
  resolve_client-prepend r r' forged same e le h =
      let (t, ip, found) = resolved_from r h in
      let peers = peer_of-eq r r' same in
      let found' = client-append r.header r'.header forged ip e le found in
      resolve_at r' ip (rw peers t) found' ∙ rw (resolve_at r ip t found, peers)
