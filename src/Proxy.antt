-- ===== src/Proxy.antt =====
-- internals/app/proxy.go: whose address a request has behind a proxy. net/netip is a parameter.
pub mod Forged
use sade_safe_media_delivery.Base.{
  Bool, List, Option, Text, [], codes, count_where, false, if◌then◌else◌, is_empty, none, not, some,
  str_eq, ◌&&◌, ◌++◌, ◌==◌, ◌∷◌,
}
use sade_safe_media_delivery.GoText.{to_lower, trim_space}

-- Of net/netip and net: the addresses, the networks, and their text.
pub record Netip : Type 1 where
  pub Addr : Type 0
  pub Prefix : Type 0
  pub parse_addr : Text → Option Addr
  pub parse_prefix : Text → Option Prefix
  pub whole_prefix : Addr → Prefix
  pub holds : Prefix → Addr → Bool
  pub unmap : Addr → Addr
  pub show_addr : Addr → Text
  pub split_host_port : Text → Option Text

-- Of a request: the peer, whether it came over TLS, and its forwarding headers.
pub record ProxyRequest : Type 0 where
  pub remote_addr : Text
  pub is_tls : Bool
  pub forwarded_for_headers : List Text
  pub forwarded_proto : Text

-- newProxyTrust
unfoldable pub new_proxy_trust : (n : Netip) → List Text → List n.Prefix
new_proxy_trust n [] = []
new_proxy_trust n (raw ∷ cidrs) =
    let rest = new_proxy_trust n cidrs in
    let cidr = trim_space raw in
    if is_empty cidr then rest else elim (n.parse_prefix cidr) [
      | some p ↦ p ∷ rest
      | none ↦ elim (n.parse_addr cidr) [ some a ↦ n.whole_prefix a ∷ rest | none ↦ rest ]
    ]

-- trusts, for a valid address.
unfoldable pub trusts : (n : Netip) → List n.Prefix → n.Addr → Bool
trusts n nets addr = not (count_where (λ p. n.holds p (n.unmap addr)) nets == 0)

-- trusts, where the address may not be valid.
unfoldable pub trusts_peer : (n : Netip) → List n.Prefix → Option n.Addr → Bool
unfolding trusts
trusts_peer n nets none = false
trusts_peer n nets (some addr) = trusts n nets addr

-- peerAddr
unfoldable pub peer_addr : (n : Netip) → ProxyRequest → Option n.Addr × Text
peer_addr n r =
    let host : Text = elim (n.split_host_port r.remote_addr) [
      | some h ↦ h
      | none ↦ r.remote_addr
    ] in
    elim (n.parse_addr host) [
      | none ↦ (none, host)
      | some addr ↦ (some (n.unmap addr), n.show_addr (n.unmap addr))
    ]

-- strings.Split at a comma.
unfoldable pub split_comma : Text → List Text
split_comma [] = [] ∷ []
split_comma (c ∷ s) =
    let rest = split_comma s in
    if c == 44
    then [] ∷ rest
    else elim rest [ [] ↦ (c ∷ []) ∷ [] | part ∷ parts ↦ (c ∷ part) ∷ parts ]

-- forwardedFor, the parts of one header.
unfoldable pub hops_of : List Text → List Text
hops_of [] = []
hops_of (part ∷ parts) =
    let rest = hops_of parts in if is_empty (trim_space part) then rest else trim_space part ∷ rest

-- forwardedFor
unfoldable pub forwarded_for : List Text → List Text
unfolding split_comma hops_of
forwarded_for [] = []
forwarded_for (header ∷ headers) = hops_of (split_comma header) ++ forwarded_for headers

-- clientIP, the walk from the right: the last hop that is an address and no trusted proxy.
unfoldable pub believed : (n : Netip) → List n.Prefix → List Text → Option Text
unfolding trusts
believed n nets [] = none
believed n nets (hop ∷ hops) = elim (believed n nets hops) [
  | some ip ↦ some ip
  | none ↦ elim (n.parse_addr hop) [
    | none ↦ none
    | some addr ↦ if trusts n nets addr then none else some (n.show_addr (n.unmap addr))
  ]
]

-- clientIP
unfoldable pub client_ip : (n : Netip) → List n.Prefix → ProxyRequest → Text
unfolding peer_addr trusts_peer forwarded_for believed
client_ip n nets r =
    let peer = peer_addr n r in
    if not (trusts_peer n nets peer.0)
    then peer.1
    else elim (believed n nets (forwarded_for r.forwarded_for_headers)) [
      | some ip ↦ ip
      | none ↦ peer.1
    ]

-- scheme, the client's part of the header.
unfoldable pub first_proto : Text → Text
unfolding split_comma
first_proto fp = elim (split_comma fp) [ [] ↦ fp | part ∷ parts ↦ trim_space part ]

-- scheme
unfoldable pub scheme : (n : Netip) → List n.Prefix → ProxyRequest → Text
unfolding peer_addr trusts_peer first_proto
scheme n nets r =
    let proto = trim_space r.forwarded_proto in
    if r.is_tls
    then codes "https"
    else if trusts_peer n nets (peer_addr n r).0 && not (is_empty proto)
    then if str_eq (to_lower (first_proto proto)) (codes "https")
      then codes "https"
      else codes "http"
    else codes "http"
