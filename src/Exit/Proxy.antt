-- ===== src/Exit/Proxy.antt =====
-- binaries/geph5-exit/src/proxy.rs and dns.rs: where the exit connects a stream. A text is the list of its
-- characters; parsing addresses and ports, the block lists and the queries are parameters, with none
-- for an error. The cache before the queries, which keeps what they gave, is left out.
pub mod Targets
pub mod Udp
pub mod Tests
use geph.Base.{
  ℕ, ◌≡◌, refl, Bool, true, false, not, ◌&&◌, List, [], ◌∷◌, Option, none, some, ◌==◌,
  if◌then◌else◌,
}
use geph.Base.Bytes.{bytes_eq}
use geph.Exit.Allow.{IpAddr, v4, v6, SocketAddr, proxy_allowed}

-- `str::split_once`: at the first place.
unfoldable pub split_once : ℕ → List ℕ → Option (List ℕ × List ℕ)
split_once c [] = none
split_once c (x ∷ xs) =
    let rest = split_once c xs in
    if x == c
    then some ([], xs)
    else (elim rest [ none ↦ none | some (before, behind) ↦ some (x ∷ before, behind) ])

-- `str::rsplit_once`: at the last place.
unfoldable pub rsplit_once : ℕ → List ℕ → Option (List ℕ × List ℕ)
rsplit_once c [] = none
rsplit_once c (x ∷ xs) = elim (rsplit_once c xs) [
  | some (before, behind) ↦ some (x ∷ before, behind)
  | none ↦ if x == c then some ([], xs) else none
]

unfoldable pub is_ipv4 : SocketAddr → Bool
is_ipv4 addr = elim (addr.ip) [ v4 a ↦ true | v6 a ↦ false ]

-- An answer to a query: the address of an A or AAAA record, or another record.
pub data Answer : Type 0 where
  address : IpAddr → Answer
  other_record : Answer

unfoldable pub parse_dns_response : List Answer → ℕ → List SocketAddr
parse_dns_response [] port = []
parse_dns_response (address ip ∷ answers) port =
    record { ip = ip; port = port } ∷ parse_dns_response answers port
parse_dns_response (other_record ∷ answers) port = parse_dns_response answers port

pub record Resolver : Type 0 where
  pub parse_addr : List ℕ → Option SocketAddr
  pub parse_port : List ℕ → Option ℕ
  -- Whether the session's filter lets a host pass.
  pub check_host : List ℕ → Bool
  -- The answers to the query for A records.
  pub query : List ℕ → Option (List Answer)

unfoldable pub nonempty : List SocketAddr → Option (List SocketAddr)
nonempty [] = none
nonempty (a ∷ addrs) = some (a ∷ addrs)

module _ (r : Resolver) where
  unfoldable pub resolve_host : List ℕ → ℕ → Option (List SocketAddr)
  resolve_host host port =
      if r.check_host host
      then elim (r.query host) [
        | none ↦ none
        | some answers ↦ nonempty (parse_dns_response answers port)
      ]
      else none

  unfoldable pub dns_resolve : List ℕ → Option (List SocketAddr)
  dns_resolve name = elim (r.parse_addr name) [
    | some addr ↦ some (addr ∷ [])
    | none ↦ elim (rsplit_once b':' name) [
      | none ↦ none
      | some (host, port_str) ↦ elim (r.parse_port port_str) [
        | none ↦ none
        | some port ↦ resolve_host host port
      ]
    ]
  ]

pub data Target : Type 0 where
  -- The dialer's addresses; the socket's peer; the exit's own resolver.
  tcp_to : List SocketAddr → Target
  udp_to : SocketAddr → Target
  dns_proxy : Target
  unresolved not_allowed no_ipv4 quic_banned unknown_protocol : Target

abbrev pub tcp_name : List ℕ
tcp_name = b't' ∷ b'c' ∷ b'p' ∷ []

abbrev pub udp_name : List ℕ
udp_name = b'u' ∷ b'd' ∷ b'p' ∷ []

-- The protocol and the host of a stream's metadata.
unfoldable pub split_dest : List ℕ → List ℕ × List ℕ
split_dest dest = elim (split_once b'$' dest) [ none ↦ (tcp_name, dest) | some p ↦ p ]

unfoldable pub find_ipv4 : List SocketAddr → Option SocketAddr
find_ipv4 [] = none
find_ipv4 (a ∷ addrs) = let rest = find_ipv4 addrs in if is_ipv4 a then some a else rest

unfoldable pub udp_target : Option SocketAddr → Target
udp_target none = no_ipv4
udp_target (some addr) =
    if addr.port == 53 then dns_proxy else if addr.port == 443 then quic_banned else udp_to addr

-- The ports that free users may reach, and whether the user is one.
module _ (ports : List ℕ) (is_free : Bool) where
  unfoldable pub all_allowed : List SocketAddr → Bool
  all_allowed [] = true
  all_allowed (a ∷ addrs) = proxy_allowed ports a is_free && all_allowed addrs

  unfoldable pub target_of : List ℕ → List SocketAddr → Target
  target_of protocol dest_addrs =
      if not (all_allowed dest_addrs)
      then not_allowed
      else if bytes_eq protocol tcp_name
      then tcp_to dest_addrs
      else if bytes_eq protocol udp_name
      then udp_target (find_ipv4 dest_addrs)
      else unknown_protocol

  unfoldable pub resolved_target : List ℕ → Option (List SocketAddr) → Target
  resolved_target protocol none = unresolved
  resolved_target protocol (some dest_addrs) = target_of protocol dest_addrs

  -- `proxy_stream`, up to the copying of bytes.
  unfoldable pub proxy_stream : Resolver → List ℕ → Target
  proxy_stream r dest = resolved_target (split_dest dest).0 (dns_resolve r (split_dest dest).1)
