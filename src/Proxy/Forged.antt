-- ===== src/Proxy/Forged.antt =====
-- The forwarding headers that a client makes up (internals/app/proxy.go).
use mathlib.Core.List.{append-nil}
use sade_safe_media_delivery.Base.{
  Bool-cases, List, Text, [], if◌then◌else◌, inl, inr, is_empty, refl, some, ◌++◌, ◌==◌, ◌∷◌, ◌≡◌,
}
use sade_safe_media_delivery.GoText.{trim_space}
use sade_safe_media_delivery.Proxy.{
  Netip, ProxyRequest, believed, client_ip, forwarded_for, hops_of, peer_addr, split_comma,
  trusts_peer,
}

split_comma-first :
    (s : Text) → (part : Text) × (parts : List Text) × (split_comma s ≡ part ∷ parts)
unfolding split_comma
split_comma-first [] = ([], [], refl)
split_comma-first (c ∷ s) = elim (Bool-cases (c == 44)) [
  | inl comma ↦ ([], split_comma s, rw (split_comma, comma) refl)
  | inr other ↦
      let (part, parts, ih) = split_comma-first s in
      (c ∷ part, parts, rw (split_comma, other, ih) refl)
]

split_comma-join : (a b : Text) → split_comma (a ++ 44 ∷ b) ≡ split_comma a ++ split_comma b
unfolding split_comma
split_comma-join [] b = refl
split_comma-join (c ∷ a) b = elim (Bool-cases (c == 44)) [
  | inl comma ↦ rw (split_comma, comma, split_comma-join a b) refl
  | inr other ↦
      let (part, parts, first) = split_comma-first a in
      rw (split_comma, other, split_comma-join a b, first) refl
]

hops_of-append : (xs ys : List Text) → hops_of (xs ++ ys) ≡ hops_of xs ++ hops_of ys
unfolding hops_of
hops_of-append [] ys = refl
hops_of-append (x ∷ xs) ys = elim (Bool-cases (is_empty (trim_space x))) [
  | inl blank ↦ rw (hops_of, blank, hops_of-append xs ys) refl
  | inr hop ↦ rw (hops_of, hop, hops_of-append xs ys) refl
]

believed-append :
    (n : Netip) (nets : List n.Prefix) (xs ys : List Text) {ip : Text}
    → believed n nets ys ≡ some ip
    → believed n nets (xs ++ ys) ≡ some ip
unfolding believed
believed-append n nets [] ys h = h
believed-append n nets (x ∷ xs) ys h = rw (believed, believed-append n nets xs ys h) refl

believed-last :
    (n : Netip) (nets : List n.Prefix) (headers : List Text) (forged own : Text) {ip : Text}
    → believed n nets (hops_of (split_comma own)) ≡ some ip
    → believed n nets (forwarded_for (headers ++ (forged ++ 44 ∷ own) ∷ [])) ≡ some ip
unfolding forwarded_for
believed-last n nets [] forged own h =
    rw
      (
        split_comma-join forged own,
        hops_of-append (split_comma forged) (split_comma own),
        append-nil,
      )
      (believed-append n nets (hops_of (split_comma forged)) (hops_of (split_comma own)) h)
believed-last n nets (x ∷ headers) forged own h =
    believed-append n nets (hops_of (split_comma x))
      (forwarded_for (headers ++ (forged ++ 44 ∷ own) ∷ []))
      (believed-last n nets headers forged own h)

-- Whatever a client writes in its forwarding headers, in other headers before the last or in front of the
-- comma where the proxy appends, the address that counts is the one found in what the proxy appended; and
-- with a peer that is no trusted proxy it is the peer's own. What the proxy appended has an address that is
-- no proxy's.
pub client_ip-unforged :
    (n : Netip) (nets : List n.Prefix) (r : ProxyRequest) (headers : List Text) (forged own : Text)
    {ip : Text}
    → believed n nets (hops_of (split_comma own)) ≡ some ip
    → client_ip n nets (record r { forwarded_for_headers = headers ++ (forged ++ 44 ∷ own) ∷ [] })
      ≡ (if trusts_peer n nets (peer_addr n r).0 then ip else (peer_addr n r).1)
unfolding client_ip peer_addr
client_ip-unforged n nets r headers forged own h =
    elim (Bool-cases (trusts_peer n nets (peer_addr n r).0)) [
      | inl proxy ↦ rw (client_ip, proxy, believed-last n nets headers forged own h) refl
      | inr direct ↦ rw (client_ip, direct) refl
    ]
