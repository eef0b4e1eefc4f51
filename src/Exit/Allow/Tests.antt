-- ===== src/Exit/Allow/Tests.antt =====
-- The filter at concrete addresses.
use geph.Base.{ℕ, ◌≡◌, refl, true, false, ◌||◌, List, [], ◌∷◌}
use geph.Exit.Allow.{
  Ipv4, v4, v6, SocketAddr, is_globally_routable, is_private, is_loopback, is_link_local,
  is_ipv4_globally_routable, is_broadcast, is_documentation, is_unspecified, is_ipv4_shared_address,
  is_ipv4_ietf_protocol_assignment, is_ipv4_reserved, is_ipv4_benchmarking, proxy_allowed,
}
use geph.Exit.Allow.Mapped.{to_ipv6_mapped, proxy_allowed-to_ipv6_mapped}

abbrev ports : List ℕ
ports = 80 ∷ 443 ∷ []

abbrev outside : SocketAddr
outside = record { ip = v4 (record { a = 8; b = 8; c = 8; d = 8 }); port = 443 }

outside_allowed : proxy_allowed ports outside true ≡ true
unfolding proxy_allowed is_globally_routable is_ipv4_globally_routable is_private is_loopback
    is_link_local is_broadcast is_documentation is_unspecified is_ipv4_shared_address
    is_ipv4_ietf_protocol_assignment is_ipv4_reserved is_ipv4_benchmarking
outside_allowed = refl

abbrev inside : Ipv4
inside = record { a = 10; b = 0; c = 0; d = 1 }

inside_private : (is_private inside || is_loopback inside || is_link_local inside) ≡ true
unfolding is_private
inside_private = refl

proxy_allowed-to_ipv6_mapped_example :
    (proxy_allowed ports (record { ip = v4 inside; port = 22 }) false ≡ false)
    × (proxy_allowed ports (record { ip = v6 (to_ipv6_mapped inside); port = 22 }) false ≡ true)
proxy_allowed-to_ipv6_mapped_example =
    proxy_allowed-to_ipv6_mapped ports inside 22 false inside_private
