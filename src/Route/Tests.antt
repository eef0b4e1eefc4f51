-- ===== src/Route/Tests.antt =====
-- Routes at concrete networks and exits.
use Prim.Native.String.{String}
use geph.Base.{ℕ, ◌≡◌, refl, List, [], ◌∷◌, none, some, All, arith}
use geph.Exit.Allow.{IpAddr, v4, v6, SocketAddr}
use geph.Sillad.Dialer.{Attempt, never, after, connected, failed, broken_pipe}
use geph.Sillad.Dialer.Race.{success}
use geph.Route.{tcp_route, race_route, delay_route, other_route, Routes, no_routes, more_routes}
use geph.Route.Dialer.{Dialers, route_to_dialer, whitelisted}
use geph.Route.Dialer.Races.{soonest, successes, success-race_route}
use geph.Route.Dialer.Whitelist.{other, route_to_dialer-whitelisted}
use geph.Route.Exits.{
  ExitDescriptor, country_only, Constraints, constraints, pick_exit_with_constraint,
}
use geph.Route.Exits.Least.{IsBest, pick_exit_with_constraint-IsBest}
use geph.Route.Cached.{IsOrdered, IsReturned, within, calls, calls-IsReturned}

abbrev address : SocketAddr
address = record { ip = v4 (record { a = 1; b = 2; c = 3; d = 4 }); port = 9 }

abbrev closer : SocketAddr
closer = record { ip = v4 (record { a = 5; b = 6; c = 7; d = 8 }); port = 4 }

-- A connection takes as long as its port says.
abbrev toy : Dialers ℕ ℕ
toy = record {
  tcp = λ addr. after addr.port (connected addr.port);
  sosistab = λ cookie lower. lower;
  conn_test = λ pings lower. lower;
  tls = λ sni domain lower. lower;
}

abbrev routes : Routes
routes =
    more_routes (tcp_route address)
      (more_routes (other_route 0) (more_routes (delay_route 1 (tcp_route closer)) no_routes))

success-race_route_example :
    success (route_to_dialer toy (race_route routes)) ≡ soonest (successes toy routes)
success-race_route_example = success-race_route toy routes

abbrev four_only : SocketAddr → Attempt ℕ ℕ
four_only addr = elim (addr.ip) [ v4 a ↦ after addr.port (connected addr.port) | v6 a ↦ never ]

route_to_dialer-whitelisted_example :
    route_to_dialer toy (race_route routes)
    ≡ route_to_dialer (other toy four_only) (race_route routes)
unfolding whitelisted
route_to_dialer-whitelisted_example =
    route_to_dialer-whitelisted toy four_only (race_route routes) (λ port. refl, (λ port. refl, tt))

abbrev exit_in : String → ExitDescriptor
exit_in country = record {
  c2e_listen = address;
  b2e_listen = address;
  country = country;
  city = "";
}

abbrev exits : List (ℕ × ExitDescriptor)
exits = (3, exit_in "CAN") ∷ (1, exit_in "USA") ∷ (2, exit_in "CAN") ∷ []

abbrev in_canada : Constraints
in_canada = record {
  country_constraint = some "CAN";
  city_constraint = none;
  hostname_constraint = none;
}

abbrev no_text : IpAddr → String
no_text a = ""

abbrev by_key : ℕ → ExitDescriptor → ℕ
by_key k e = k

pick_exit_with_constraint-IsBest_example :
    IsBest no_text by_key in_canada exits
      (pick_exit_with_constraint no_text by_key (country_only "CAN") exits)
unfolding constraints
pick_exit_with_constraint-IsBest_example =
    pick_exit_with_constraint-IsBest no_text by_key (country_only "CAN") in_canada exits refl

abbrev attempts : List (ℕ × Attempt ℕ ℕ)
attempts =
    (20_000, never) ∷ (30_000, after 7 (connected 6)) ∷ (30_010, after 0 (failed broken_pipe)) ∷ []

calls-IsReturned_example : All IsReturned (calls (some (5, 100)) attempts)
unfolding IsOrdered within
calls-IsReturned_example =
    calls-IsReturned 5 100 200 attempts (omega arith)
      (omega arith, (omega arith, (omega arith, tt)))
