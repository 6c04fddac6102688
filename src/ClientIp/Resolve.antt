-- ===== src/ClientIp/Resolve.antt =====
-- What a request's client address is, and what a client cannot change by the headers it sends.
use webhttp.Prelude.{
  ◌≤◌, ◌<◌, true, false, List, [], ◌∷◌, map, ◌≡◌, length, Bytes, arith, Option-cases, Bool-cases,
  inl, inr, ◌⊎◌,
}
use native.Mathlib.Decide.{dec_le}
use webhttp.Header.{Header}
use webhttp.FieldList.{field_list, ListSyntax}
use webhttp.Net.{Addr, Prefix, AddrText}
use webhttp.Http.{Request}
use webhttp.ClientIp.{
  ClientResolution, in_trusted, client, present, names_public, max_forwarding_hops, parse_bounded,
  parse_forwarding, resolve_client, peer_of,
}
use webhttp.ClientIp.Walk.{bounded_loop_within, bounded_loop_over, IsClient, client_iff}

module _ {T : Type 0} (zero : T) (parse : Bytes → T) (h : Header) (name : Bytes)
    (syntax : ListSyntax) where
  -- A field of at most 64 elements is parsed element by element; a longer one is a single zero
  -- element, and is never read in part.
  pub parse_bounded_lem :
      (length (field_list h name syntax) ≤ max_forwarding_hops)
        × (parse_bounded zero parse h name syntax ≡ map parse (field_list h name syntax))
      ⊎ (max_forwarding_hops < length (field_list h name syntax))
        × (parse_bounded zero parse h name syntax ≡ zero ∷ [])
  unfolding parse_bounded
  parse_bounded_lem =
      let es = field_list h name syntax in
      elim (dec_le (length es) max_forwarding_hops) [
        | yes le ↦ inl (le, bounded_loop_within zero parse [] es (omega arith))
        | no gt ↦ inr (omega arith, bounded_loop_over zero parse [] es (omega arith) (omega arith))
      ]

module _ (text : AddrText) (trusted : List Prefix) (r : Request) where
  -- The answer with no entry of X-Forwarded-For chosen.
  pub record IsPeer (res : ClientResolution) : Type 0 where
    pub peer : res.peer ≡ peer_of text r
    pub ip : res.ip ≡ peer_of text r
    pub forwarded : res.forwarded ≡ false

  pub record IsQuiet (res : ClientResolution) : Type 0 where
    pub untrusted_forwarding : res.untrusted_forwarding ≡ false
    pub ignored_public : res.ignored_public ≡ false

  pub data IsResolved (res : ClientResolution) : Type 0 where
    -- The peer is outside the trusted set: it is the client, and what it sent is only reported.
    direct :
        in_trusted (peer_of text r) trusted ≡ false
        → IsPeer res
        → res.untrusted_forwarding ≡ present (parse_forwarding text r.header)
        → res.ignored_public ≡ names_public text (parse_forwarding text r.header)
        → IsResolved res
    -- The peer is trusted: the client is the right-most untrusted entry behind trusted hops alone.
    proxied :
        in_trusted (peer_of text r) trusted ≡ true
        → res.peer ≡ peer_of text r
        → res.forwarded ≡ true
        → IsClient trusted (parse_forwarding text r.header).xff res.ip
        → IsQuiet res
        → IsResolved res
    -- The peer is trusted and there is no such entry.
    unproxied :
        in_trusted (peer_of text r) trusted ≡ true
        → IsPeer res
        → ¬ ((ip : Addr) × IsClient trusted (parse_forwarding text r.header).xff ip)
        → IsQuiet res
        → IsResolved res

  -- In every case the answer is the peer, or the right-most entry of X-Forwarded-For outside the
  -- trusted set with only trusted hops behind it, and that only behind a trusted peer. Forwarding
  -- fields that an untrusted peer sent are reported, and change nothing else.
  pub resolve_client-IsResolved : IsResolved (resolve_client text r trusted)
  unfolding resolve_client
  resolve_client-IsResolved =
      let fwd = parse_forwarding text r.header in
      elim (Bool-cases (in_trusted (peer_of text r) trusted)) [
        | inl t ↦ elim (Option-cases (client fwd trusted)) [
          | inl missing ↦
              let quiet : IsQuiet (resolve_client text r trusted) = ground arith in
              let peer : IsPeer (resolve_client text r trusted) = ground arith in
              unproxied t peer (λ (ip, c). cc ((client_iff trusted fwd ip).1 c)) quiet
          | inr (ip, found) ↦
              let same : (resolve_client text r trusted).ip ≡ ip = ground arith in
              let quiet : IsQuiet (resolve_client text r trusted) = ground arith in
              proxied t (ground arith) (ground arith)
                (rw same ((client_iff trusted fwd ip).0 found)) quiet
        ]
        | inr u ↦ direct u (ground arith) (ground arith) (ground arith)
      ]
