-- ===== src/Route/Dialer/Whitelist.antt =====
-- `smart_vpn_whitelist` in `route_to_dialer`: the addresses that the VPN lets through.
use geph.Base.{◌≡◌, refl, ap, ap₂, List, [], ◌∷◌, ◌++◌, All, ℕ}
use geph.Exit.Allow.{SocketAddr, IpAddr}
use geph.Sillad.Dialer.{Attempt, timeout, delay}
use geph.Route.{
  RouteDescriptor, tcp_route, sosistab3_route, plain_tls_route, race_route, fallback_route,
  timeout_route, delay_route, conn_test_route, other_route, Routes, no_routes, more_routes,
}
use geph.Route.Dialer.{
  Dialers, route_to_dialer, race_after, fallback_after, whitelisted, whitelisted_all, dynamic_race,
  dynamic_fallback, is_some, unwrap_or,
}

module _ {E P : Type 0} where
  -- The network does the same for two users at an address, whatever the port.
  abbrev pub SameAt : (SocketAddr → Attempt E P) → (SocketAddr → Attempt E P) → IpAddr → Type 0
  SameAt f g a =
      (port : ℕ) → f (record { ip = a; port = port }) ≡ g (record { ip = a; port = port })

  All-left :
      (f g : SocketAddr → Attempt E P) (xs ys : List IpAddr)
      → All (SameAt f g) (xs ++ ys)
      → All (SameAt f g) xs
  All-left f g [] ys h = tt
  All-left f g (x ∷ xs) ys h = (h.0, All-left f g xs ys h.1)

  All-right :
      (f g : SocketAddr → Attempt E P) (xs ys : List IpAddr)
      → All (SameAt f g) (xs ++ ys)
      → All (SameAt f g) ys
  All-right f g [] ys h = h
  All-right f g (x ∷ xs) ys h = All-right f g xs ys h.1

  module _ (d : Dialers E P) (other_tcp : SocketAddr → Attempt E P) where
    abbrev pub other : Dialers E P
    other = record d { tcp = other_tcp }

    mutual
      unfolding route_to_dialer whitelisted

      same_attempt :
          (r : RouteDescriptor)
          → All (SameAt d.tcp other_tcp) (whitelisted r)
          → route_to_dialer d r ≡ route_to_dialer other r
      same_attempt (tcp_route addr) h = h.0 addr.port
      same_attempt (sosistab3_route cookie lower) h = ap (d.sosistab cookie) (same_attempt lower h)
      same_attempt (plain_tls_route domain lower) h =
          ap (d.tls (is_some domain) (unwrap_or "example.com" domain)) (same_attempt lower h)
      same_attempt (race_route no_routes) h = refl
      same_attempt (race_route (more_routes r rs)) h =
          same_race _ _ rs (same_attempt r (All-left d.tcp other_tcp (whitelisted r) _ h))
            (All-right d.tcp other_tcp (whitelisted r) _ h)
      same_attempt (fallback_route no_routes) h = refl
      same_attempt (fallback_route (more_routes r rs)) h =
          same_fallback _ _ rs (same_attempt r (All-left d.tcp other_tcp (whitelisted r) _ h))
            (All-right d.tcp other_tcp (whitelisted r) _ h)
      same_attempt (timeout_route ms lower) h = ap (timeout ms) (same_attempt lower h)
      same_attempt (delay_route ms lower) h = ap (delay ms) (same_attempt lower h)
      same_attempt (conn_test_route pings lower) h = ap (d.conn_test pings) (same_attempt lower h)
      same_attempt (other_route json) h = refl

      same_race :
          (a b : Attempt E P) (rs : Routes)
          → a ≡ b
          → All (SameAt d.tcp other_tcp) (whitelisted_all rs)
          → race_after d a rs ≡ race_after other b rs
      same_race a b no_routes e h = e
      same_race a b (more_routes r rs) e h =
          same_race _ _ rs
            (ap₂ dynamic_race e (same_attempt r (All-left d.tcp other_tcp (whitelisted r) _ h)))
            (All-right d.tcp other_tcp (whitelisted r) _ h)

      same_fallback :
          (a b : Attempt E P) (rs : Routes)
          → a ≡ b
          → All (SameAt d.tcp other_tcp) (whitelisted_all rs)
          → fallback_after d a rs ≡ fallback_after other b rs
      same_fallback a b no_routes e h = e
      same_fallback a b (more_routes r rs) e h =
          same_fallback _ _ rs
            (ap₂ dynamic_fallback e (same_attempt r (All-left d.tcp other_tcp (whitelisted r) _ h)))
            (All-right d.tcp other_tcp (whitelisted r) _ h)

    -- The dialer of a route dials no address that has not been whitelisted: over two networks that
    -- do the same at the addresses that `route_to_dialer` whitelists, and may differ at all others,
    -- the attempt is the same.
    pub route_to_dialer-whitelisted :
        (r : RouteDescriptor)
        → All (SameAt d.tcp other_tcp) (whitelisted r)
        → route_to_dialer d r ≡ route_to_dialer other r
    route_to_dialer-whitelisted r h = same_attempt r h
