-- ===== src/Examples/Proxying.antt =====
-- The address of a client behind a proxy on the same machine (internals/app/proxy.go).
use sade_safe_media_delivery.Base.{
  List, Text, [], codes, count_where, false, none, refl, some, str_eq, ◌++◌, ◌∷◌, ◌≡◌,
}
use sade_safe_media_delivery.GoText.{to_lower, trim_space}
use sade_safe_media_delivery.Proxy.{
  Netip, ProxyRequest, believed, client_ip, hops_of, new_proxy_trust, peer_addr, scheme,
  split_comma, trusts_peer,
}
use sade_safe_media_delivery.Proxy.Forged.{client_ip-unforged}

-- Addresses that are their texts, each its own network, and peers without a port.
abbrev toy_netip : Netip
toy_netip = record {
  Addr = Text;
  Prefix = Text;
  parse_addr = λ t. some t;
  parse_prefix = λ t. none;
  whole_prefix = λ a. a;
  holds = λ p a. str_eq p a;
  unmap = λ a. a;
  show_addr = λ a. a;
  split_host_port = λ t. some t;
}

abbrev nets : List Text
nets = new_proxy_trust toy_netip (codes " 127.0.0.1" ∷ [])

abbrev forwarded : ProxyRequest
forwarded = record {
  remote_addr = codes "127.0.0.1";
  is_tls = false;
  forwarded_for_headers = [];
  forwarded_proto = codes "HTTPS, http";
}

behind_proxy : scheme toy_netip nets forwarded ≡ codes "https"
unfolding scheme new_proxy_trust str_eq count_where trim_space to_lower
behind_proxy = refl

client_ip-unforged_example :
    client_ip toy_netip nets (record forwarded {
      forwarded_for_headers = (codes "1.1.1.1" ++ 44 ∷ codes "5.6.7.8, 127.0.0.1") ∷ [];
    })
    ≡ codes "5.6.7.8"
unfolding believed new_proxy_trust trusts_peer peer_addr str_eq count_where hops_of split_comma
    trim_space
client_ip-unforged_example =
    client_ip-unforged toy_netip nets forwarded [] (codes "1.1.1.1") (codes "5.6.7.8, 127.0.0.1")
      refl
