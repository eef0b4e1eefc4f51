-- ===== src/Exit/Allow.antt =====
-- binaries/geph5-exit/src/allow.rs: which addresses the exit connects to. An IPv4 address is its four
-- octets and an IPv6 address its eight segments; the tests of `std::net` are written out.
pub mod Mapped
pub mod Tests
use Prim.Native.Nat.{bit_and}
use geph.Base.{
  ℕ, ◌*◌, ◌+◌, ◌≤◌, ◌<◌, Bool, true, false, not, ◌&&◌, ◌||◌, List, [], ◌∷◌, ◌==◌, leb,
  if◌then◌else◌,
}

pub record Ipv4 : Type 0 where
  pub a : ℕ
  pub b : ℕ
  pub c : ℕ
  pub d : ℕ

-- The first segment, the five after it, and the last two.
pub record Ipv6 : Type 0 where
  pub first : ℕ
  pub middle : ℕ × ℕ × ℕ × ℕ × ℕ
  pub last : ℕ × ℕ

pub data IpAddr : Type 0 where
  v4 : Ipv4 → IpAddr
  v6 : Ipv6 → IpAddr

pub record SocketAddr : Type 0 where
  pub ip : IpAddr
  pub port : ℕ

-- `std::net::Ipv4Addr`
unfoldable pub is_private : Ipv4 → Bool
is_private ip =
    (ip.a == 10) || (ip.a == 172 && leb 16 ip.b && leb ip.b 31) || (ip.a == 192 && ip.b == 168)

unfoldable pub is_loopback : Ipv4 → Bool
is_loopback ip = ip.a == 127

unfoldable pub is_link_local : Ipv4 → Bool
is_link_local ip = ip.a == 169 && ip.b == 254

unfoldable pub is_broadcast : Ipv4 → Bool
is_broadcast ip = ip.a == 255 && ip.b == 255 && ip.c == 255 && ip.d == 255

unfoldable pub is_documentation : Ipv4 → Bool
is_documentation ip =
    (ip.a == 192 && ip.b == 0 && ip.c == 2)
    || (ip.a == 198 && ip.b == 51 && ip.c == 100)
    || (ip.a == 203 && ip.b == 0 && ip.c == 113)

unfoldable pub is_unspecified : Ipv4 → Bool
is_unspecified ip = ip.a == 0 && ip.b == 0 && ip.c == 0 && ip.d == 0

unfoldable pub is_ipv4_shared_address : Ipv4 → Bool
is_ipv4_shared_address ip = ip.a == 100 && bit_and ip.b 192 == 64

unfoldable pub is_ipv4_ietf_protocol_assignment : Ipv4 → Bool
is_ipv4_ietf_protocol_assignment ip = ip.a == 192 && ip.b == 0 && ip.c == 0

unfoldable pub is_ipv4_reserved : Ipv4 → Bool
is_ipv4_reserved ip = bit_and ip.a 240 == 240 && not (is_broadcast ip)

unfoldable pub is_ipv4_benchmarking : Ipv4 → Bool
is_ipv4_benchmarking ip = ip.a == 198 && bit_and ip.b 254 == 18

unfoldable pub is_ipv4_globally_routable : Ipv4 → Bool
is_ipv4_globally_routable ip =
    not (is_private ip)
    && not (is_loopback ip)
    && not (is_link_local ip)
    && not (is_broadcast ip)
    && not (is_documentation ip)
    && not (is_unspecified ip)
    && not (is_ipv4_shared_address ip)
    && not (is_ipv4_ietf_protocol_assignment ip)
    && not (is_ipv4_reserved ip)
    && not (is_ipv4_benchmarking ip)

-- `std::net::Ipv6Addr`
abbrev pub zeroes : ℕ × ℕ × ℕ × ℕ × ℕ → Bool
zeroes (p, q, r, s, t) = p == 0 && q == 0 && r == 0 && s == 0 && t == 0

unfoldable pub is_loopback_v6 : Ipv6 → Bool
is_loopback_v6 ip = ip.first == 0 && zeroes ip.middle && ip.last.0 == 0 && ip.last.1 == 1

unfoldable pub is_unspecified_v6 : Ipv6 → Bool
is_unspecified_v6 ip = ip.first == 0 && zeroes ip.middle && ip.last.0 == 0 && ip.last.1 == 0

unfoldable pub is_multicast_v6 : Ipv6 → Bool
is_multicast_v6 ip = bit_and ip.first 65280 == 65280

unfoldable pub is_ipv6_unique_local : Ipv6 → Bool
is_ipv6_unique_local ip = bit_and ip.first 65024 == 64512

unfoldable pub is_ipv6_link_local : Ipv6 → Bool
is_ipv6_link_local ip = bit_and ip.first 65472 == 65152

unfoldable pub is_ipv6_globally_routable : Ipv6 → Bool
is_ipv6_globally_routable ip =
    not (is_loopback_v6 ip)
    && not (is_unspecified_v6 ip)
    && not (is_multicast_v6 ip)
    && not (is_ipv6_unique_local ip)
    && not (is_ipv6_link_local ip)

unfoldable pub is_globally_routable : IpAddr → Bool
is_globally_routable (v4 ip) = is_ipv4_globally_routable ip
is_globally_routable (v6 ip) = is_ipv6_globally_routable ip

abbrev pub mem_port : ℕ → List ℕ → Bool
mem_port port [] = false
mem_port port (p ∷ ps) = p == port || mem_port port ps

-- `free_port_whitelist` comes from the configuration.
unfoldable pub proxy_allowed : List ℕ → SocketAddr → Bool → Bool
proxy_allowed free_port_whitelist addr is_free =
    if is_free && not (mem_port addr.port free_port_whitelist)
    then false
    else is_globally_routable addr.ip
