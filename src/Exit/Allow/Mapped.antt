-- ===== src/Exit/Allow/Mapped.antt =====
-- What the filter lets through, and the way around it.
use geph.Base.{
  ℕ, ◌*◌, ◌+◌, ◌≡◌, refl, Bool, true, false, not, ◌&&◌, ◌||◌, List, if◌then◌else◌, arith,
}
use geph.Exit.Allow.{
  Ipv4, Ipv6, v4, v6, SocketAddr, is_private, is_loopback, is_link_local, is_ipv4_globally_routable,
  is_ipv6_globally_routable, is_globally_routable, is_loopback_v6, is_unspecified_v6,
  is_multicast_v6, is_ipv6_unique_local, is_ipv6_link_local, mem_port, proxy_allowed,
}

-- The IPv6 address ::ffff:a.b.c.d, which the operating system takes to be a.b.c.d.
abbrev pub to_ipv6_mapped : Ipv4 → Ipv6
to_ipv6_mapped ip = record {
  first = 0;
  middle = (0, 0, 0, 0, 65535);
  last = (ip.a * 256 + ip.b, ip.c * 256 + ip.d);
}

-- What a free user is let through to has a port on the whitelist, and for every user it is globally
-- routable by the code's tests.
pub proxy_allowed_sound :
    (ports : List ℕ) (addr : SocketAddr) (is_free : Bool)
    → proxy_allowed ports addr is_free ≡ true
    → (is_globally_routable addr.ip ≡ true) × (is_free ≡ true → mem_port addr.port ports ≡ true)
unfolding proxy_allowed
proxy_allowed_sound ports addr is_free h = (ground (arith, h), λ e. ground (arith, h, e))

none_of : (p l k : Bool) → (p || l || k) ≡ true → (not p && not l && not k) ≡ false
none_of true l k h = refl
none_of false true k h = refl
none_of false false true h = refl
none_of false false false h = absurd (cc)

not_routable :
    (ip : Ipv4)
    → (is_private ip || is_loopback ip || is_link_local ip) ≡ true
    → is_ipv4_globally_routable ip ≡ false
unfolding is_ipv4_globally_routable
not_routable ip h = rw (none_of (is_private ip) (is_loopback ip) (is_link_local ip) h)

false_if : (b x : Bool) → x ≡ false → (if b then false else x) ≡ false
false_if true x h = refl
false_if false x h = h

mapped_routable : (ip : Ipv4) → is_ipv6_globally_routable (to_ipv6_mapped ip) ≡ true
unfolding is_ipv6_globally_routable is_loopback_v6 is_unspecified_v6 is_multicast_v6
    is_ipv6_unique_local is_ipv6_link_local
mapped_routable ip = refl

-- A private, loopback or link-local IPv4 address is refused to everybody on every port; but the IPv6
-- form of the same address is allowed to every user who is not free.
pub proxy_allowed-to_ipv6_mapped :
    (ports : List ℕ) (ip : Ipv4) (port : ℕ) (is_free : Bool)
    → (is_private ip || is_loopback ip || is_link_local ip) ≡ true
    → (proxy_allowed ports (record { ip = v4 ip; port = port }) is_free ≡ false)
      × (proxy_allowed ports (record { ip = v6 (to_ipv6_mapped ip); port = port }) false ≡ true)
unfolding proxy_allowed is_globally_routable
proxy_allowed-to_ipv6_mapped ports ip port is_free h =
    (false_if (is_free && not (mem_port port ports)) _ (not_routable ip h), mapped_routable ip)
