-- ===== src/Exit/Proxy/Targets.antt =====
-- What the exit may connect to.
use geph.Base.{
  ℕ, ◌≡◌, ◌≢◌, refl, sym, ap, ◌∙◌, Bool, true, List, [], ◌∷◌, Option, none, some, ◌==◌,
  if◌then◌else◌, Bool-cases, Option-cases, inl, inr, All, arith, subst,
}
use geph.Base.Bytes.{bytes_eq}
use geph.Mizaru.Tree.{some_inj}
use geph.Exit.Allow.{SocketAddr, proxy_allowed}
use geph.Exit.Proxy.{
  Resolver, nonempty, resolve_host, dns_resolve, rsplit_once, parse_dns_response, is_ipv4, Target,
  tcp_to, udp_to, dns_proxy, unresolved, not_allowed, no_ipv4, quic_banned, unknown_protocol,
  tcp_name, udp_name, split_dest, find_ipv4, udp_target, all_allowed, target_of, resolved_target,
  proxy_stream,
}

nonempty-ne : (addrs found : List SocketAddr) → nonempty addrs ≡ some found → found ≢ []
unfolding nonempty
nonempty-ne [] found e = absurd (cc)
nonempty-ne (a ∷ addrs) found e = λ n. absurd (cc)

module _ (r : Resolver) where
  resolve_host-ne :
      (host : List ℕ) (port : ℕ) (found : List SocketAddr)
      → resolve_host r host port ≡ some found
      → found ≢ []
  unfolding resolve_host
  resolve_host-ne host port found e = elim (Bool-cases (r.check_host host)) [
    | inr c ↦ absurd (ground arith)
    | inl c ↦ elim (Option-cases (r.query host)) [
      | inl q ↦ absurd (ground arith)
      | inr (answers, q) ↦
          nonempty-ne (parse_dns_response answers port) found
            (sym (rw (c, resolve_host, q) refl) ∙ e)
    ]
  ]

  dns_resolve-ne :
      (name : List ℕ) (found : List SocketAddr) → dns_resolve r name ≡ some found → found ≢ []
  unfolding dns_resolve
  dns_resolve-ne name found e = elim (Option-cases (r.parse_addr name)) [
    | inr (addr, a) ↦
        let k : addr ∷ [] ≡ found = some_inj (sym (rw (a, dns_resolve) refl) ∙ e) in
        λ n. absurd (cc)
    | inl a ↦ elim (Option-cases (rsplit_once b':' name)) [
      | inl s ↦
          let k : ◌≡◌ {A = Option (List SocketAddr)} none (some found) =
            sym (rw (a, dns_resolve, s) refl) ∙ e in
          absurd (cc)
      | inr ((host, port_str), s) ↦ elim (Option-cases (r.parse_port port_str)) [
        | inl p ↦
            let k : ◌≡◌ {A = Option (List SocketAddr)} none (some found) =
              sym (rw (a, dns_resolve, s, p) refl) ∙ e in
            absurd (cc)
        | inr (port, p) ↦ resolve_host-ne host port found (sym (rw (a, dns_resolve, s, p) refl) ∙ e)
      ]
    ]
  ]

module _ (ports : List ℕ) (is_free : Bool) where
  all_allowed-All :
      (addrs : List SocketAddr)
      → all_allowed ports is_free addrs ≡ true
      → All (λ a. proxy_allowed ports a is_free ≡ true) addrs
  unfolding all_allowed
  all_allowed-All [] h = tt
  all_allowed-All (a ∷ addrs) h = elim (Bool-cases (proxy_allowed ports a is_free)) [
    | inl e ↦ (e, all_allowed-All addrs (ground arith))
    | inr e ↦ absurd (ground arith)
  ]

  find_ipv4-some :
      (addrs : List SocketAddr) (a : SocketAddr)
      → All (λ a. proxy_allowed ports a is_free ≡ true) addrs
      → find_ipv4 addrs ≡ some a
      → (proxy_allowed ports a is_free ≡ true) × (is_ipv4 a ≡ true)
  unfolding find_ipv4
  find_ipv4-some [] a h e = absurd (cc)
  find_ipv4-some (x ∷ addrs) a h e = elim (Bool-cases (is_ipv4 x)) [
    | inl t ↦
        let k : x ≡ a = some_inj (sym (ap (λ b. if b then some x else find_ipv4 addrs) t) ∙ e) in
        (ap (λ z. proxy_allowed ports z is_free) (sym k) ∙ h.0, ap is_ipv4 (sym k) ∙ t)
    | inr t ↦
        find_ipv4-some addrs a h.1 (sym (ap (λ b. if b then some x else find_ipv4 addrs) t) ∙ e)
  ]

  -- TCP goes to at least one address, and the filter lets all pass; UDP goes to one IPv4 address that
  -- it lets pass, and not to the ports of DNS and of QUIC.
  unfoldable pub IsSafe : Target → Type 0
  IsSafe (tcp_to addrs) = All (λ a. proxy_allowed ports a is_free ≡ true) addrs × (addrs ≢ [])
  IsSafe (udp_to a) =
      (proxy_allowed ports a is_free ≡ true) × (is_ipv4 a ≡ true) × (a.port ≢ 53) × (a.port ≢ 443)
  IsSafe dns_proxy = Unit
  IsSafe unresolved = Unit
  IsSafe not_allowed = Unit
  IsSafe no_ipv4 = Unit
  IsSafe quic_banned = Unit
  IsSafe unknown_protocol = Unit

  udp_target-IsSafe :
      (o : Option SocketAddr)
      → ((a : SocketAddr)
          → o ≡ some a
          → (proxy_allowed ports a is_free ≡ true) × (is_ipv4 a ≡ true))
      → IsSafe (udp_target o)
  unfolding udp_target IsSafe
  udp_target-IsSafe none h = tt
  udp_target-IsSafe (some a) h = elim (Bool-cases (a.port == 53)) [
    | inl e ↦
        subst
          (λ b. IsSafe (if b then dns_proxy else if a.port == 443 then quic_banned else udp_to a))
          (sym e) tt
    | inr e ↦
        subst
          (λ b. IsSafe (if b then dns_proxy else if a.port == 443 then quic_banned else udp_to a))
          (sym e)
          (elim (Bool-cases (a.port == 443)) [
            | inl f ↦ subst (λ b. IsSafe (if b then quic_banned else udp_to a)) (sym f) tt
            | inr f ↦
                subst (λ b. IsSafe (if b then quic_banned else udp_to a)) (sym f)
                  ((h a refl).0, (h a refl).1, ground arith, ground arith)
          ])
  ]

  target_of-IsSafe :
      (protocol : List ℕ) (addrs : List SocketAddr)
      → addrs ≢ []
      → IsSafe (target_of ports is_free protocol addrs)
  unfolding target_of IsSafe
  target_of-IsSafe protocol addrs n = elim (Bool-cases (all_allowed ports is_free addrs)) [
    | inr e ↦ rw e tt
    | inl e ↦
        let all = all_allowed-All addrs e in
        elim (Bool-cases (bytes_eq protocol tcp_name)) [
          | inl f ↦ rw (e, f) (all, n)
          | inr f ↦ elim (Bool-cases (bytes_eq protocol udp_name)) [
            | inl g ↦
                rw (e, f, g) (udp_target-IsSafe (find_ipv4 addrs) (λ a. find_ipv4-some addrs a all))
            | inr g ↦ rw (e, f, g) tt
          ]
        ]
  ]

  resolved_target-IsSafe :
      (protocol : List ℕ) (o : Option (List SocketAddr))
      → ((found : List SocketAddr) → o ≡ some found → found ≢ [])
      → IsSafe (resolved_target ports is_free protocol o)
  unfolding resolved_target IsSafe
  resolved_target-IsSafe protocol none h = tt
  resolved_target-IsSafe protocol (some addrs) h = target_of-IsSafe protocol addrs (h addrs refl)

  -- Whatever a client asks for, and whatever its name resolves to, the exit connects over TCP only to
  -- addresses of which the filter lets every one pass, and there is one; and over UDP only to an IPv4
  -- address that it lets pass, never on port 53, which its own resolver serves, nor on port 443.
  pub proxy_stream-IsSafe :
      (r : Resolver) (dest : List ℕ) → IsSafe (proxy_stream ports is_free r dest)
  unfolding proxy_stream
  proxy_stream-IsSafe r dest =
      resolved_target-IsSafe (split_dest dest).0 (dns_resolve r (split_dest dest).1)
        (dns_resolve-ne r (split_dest dest).1)
