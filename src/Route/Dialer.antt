-- ===== src/Route/Dialer.antt =====
-- binaries/geph5-client/src/get_dialer.rs: the dialer of a route (`route_to_dialer`), as the attempt of one dial. The dialers
-- over the network and the protocols are parameters; which pipe type a combined dialer has is erased,
-- as `dynamic` does.
pub mod Races
pub mod Whitelist
use Prim.Native.String.{String}
use geph.Base.{
  ℕ, ◌+◌, ◌≤◌, ◌≡◌, refl, ap, ap₂, ◌∙◌, Bool, true, false, List, [], ◌∷◌, ◌++◌, Option, none, some,
  leb, if◌then◌else◌, arith, Bool-cases, inl, inr,
}
use geph.Exit.Allow.{SocketAddr, IpAddr}
use geph.Sillad.Dialer.{
  Answer, connected, failed, Attempt, never, after, EitherPipe, left, right, race_ok, map_pipe,
  race, failing, timeout, delay, fallback,
}
use geph.Sillad.Dialer.Race.{success, earlier, success-race_ok}
use geph.Route.{
  RouteDescriptor, tcp_route, sosistab3_route, plain_tls_route, race_route, fallback_route,
  timeout_route, delay_route, conn_test_route, other_route, Routes, no_routes, more_routes,
}

pub record Dialers (E P : Type 0) : Type 0 where
  pub tcp : SocketAddr → Attempt E P
  pub sosistab : String → Attempt E P → Attempt E P
  pub conn_test : ℕ → Attempt E P → Attempt E P
  -- Whether SNI is used, and the domain.
  pub tls : Bool → String → Attempt E P → Attempt E P

unfoldable pub is_some : Option String → Bool
is_some none = false
is_some (some s) = true

unfoldable pub unwrap_or : String → Option String → String
unwrap_or d none = d
unwrap_or d (some s) = s

unfoldable pub erased : {P : Type 0} → EitherPipe P P → P
erased (left p) = p
erased (right p) = p

module _ {E P : Type 0} where
  unfoldable pub dynamic_race : Attempt E P → Attempt E P → Attempt E P
  dynamic_race a b = map_pipe erased (race a b)

  unfoldable pub dynamic_fallback : Attempt E P → Attempt E P → Attempt E P
  dynamic_fallback a b = map_pipe erased (fallback a b)

module _ {E P : Type 0} (d : Dialers E P) where
  -- `race_after` and `fallback_after` are `reduce` behind its first element.
  unfoldable mutual
    pub route_to_dialer : RouteDescriptor → Attempt E P
    route_to_dialer (tcp_route addr) = d.tcp addr
    route_to_dialer (sosistab3_route cookie lower) = d.sosistab cookie (route_to_dialer lower)
    route_to_dialer (race_route no_routes) = failing
    route_to_dialer (race_route (more_routes r rs)) = race_after (route_to_dialer r) rs
    route_to_dialer (fallback_route no_routes) = failing
    route_to_dialer (fallback_route (more_routes r rs)) = fallback_after (route_to_dialer r) rs
    route_to_dialer (timeout_route ms lower) = timeout ms (route_to_dialer lower)
    route_to_dialer (delay_route ms lower) = delay ms (route_to_dialer lower)
    route_to_dialer (conn_test_route pings lower) = d.conn_test pings (route_to_dialer lower)
    route_to_dialer (other_route json) = failing
    route_to_dialer (plain_tls_route domain lower) =
        d.tls (is_some domain) (unwrap_or "example.com" domain) (route_to_dialer lower)

    pub race_after : Attempt E P → Routes → Attempt E P
    race_after a no_routes = a
    race_after a (more_routes r rs) = race_after (dynamic_race a (route_to_dialer r)) rs

    pub fallback_after : Attempt E P → Routes → Attempt E P
    fallback_after a no_routes = a
    fallback_after a (more_routes r rs) = fallback_after (dynamic_fallback a (route_to_dialer r)) rs

-- The addresses on which `route_to_dialer` calls `smart_vpn_whitelist`, in order.
unfoldable mutual
  pub whitelisted : RouteDescriptor → List IpAddr
  whitelisted (tcp_route addr) = addr.ip ∷ []
  whitelisted (sosistab3_route cookie lower) = whitelisted lower
  whitelisted (race_route rs) = whitelisted_all rs
  whitelisted (fallback_route rs) = whitelisted_all rs
  whitelisted (timeout_route ms lower) = whitelisted lower
  whitelisted (delay_route ms lower) = whitelisted lower
  whitelisted (conn_test_route pings lower) = whitelisted lower
  whitelisted (other_route json) = []
  whitelisted (plain_tls_route domain lower) = whitelisted lower

  pub whitelisted_all : Routes → List IpAddr
  whitelisted_all no_routes = []
  whitelisted_all (more_routes r rs) = whitelisted r ++ whitelisted_all rs
