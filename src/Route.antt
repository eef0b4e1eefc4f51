-- ===== src/Route.antt =====
-- The routes from a client to an exit: libraries/geph5-broker-protocol/src/route.rs, the protocols of
-- libraries/geph5-misc-rpc/src/bridge.rs, the descriptor that the broker makes of one
-- (binaries/geph5-broker/src/routes.rs) and the listener that the exit makes of the same one
-- (binaries/geph5-exit/src/listen/b2e_process.rs). A JSON value that is no route is some number.
pub mod Leaf
pub mod Dialer
pub mod Exits
pub mod Cached
pub mod Tests
use Prim.Native.String.{String}
use geph.Base.{ℕ, ◌≡◌, refl, Option, some}
use geph.Exit.Allow.{SocketAddr}

pub data ObfsProtocol : Type 0 where
  old_sosistab3_obfs : String → ObfsProtocol
  no_obfs : ObfsProtocol
  conn_test_obfs plain_tls_obfs : ObfsProtocol → ObfsProtocol
  sosistab3_obfs : String → ObfsProtocol → ObfsProtocol

mutual
  pub data RouteDescriptor : Type 0 where
    tcp_route : SocketAddr → RouteDescriptor
    -- The cookie.
    sosistab3_route : String → RouteDescriptor → RouteDescriptor
    -- The domain for SNI.
    plain_tls_route : Option String → RouteDescriptor → RouteDescriptor
    race_route fallback_route : Routes → RouteDescriptor
    -- In milliseconds.
    timeout_route delay_route : ℕ → RouteDescriptor → RouteDescriptor
    -- The number of pings.
    conn_test_route : ℕ → RouteDescriptor → RouteDescriptor
    other_route : ℕ → RouteDescriptor

  pub data Routes : Type 0 where
    no_routes : Routes
    more_routes : RouteDescriptor → Routes → Routes

unfoldable pub protocol_to_descriptor : ObfsProtocol → SocketAddr → RouteDescriptor
protocol_to_descriptor (old_sosistab3_obfs cookie) addr = sosistab3_route cookie (tcp_route addr)
protocol_to_descriptor no_obfs addr = tcp_route addr
protocol_to_descriptor (conn_test_obfs inner) addr =
    conn_test_route 1 (protocol_to_descriptor inner addr)
protocol_to_descriptor (plain_tls_obfs inner) addr =
    plain_tls_route (some "labooyah-squish.be") (protocol_to_descriptor inner addr)
protocol_to_descriptor (sosistab3_obfs cookie inner) addr =
    sosistab3_route cookie (protocol_to_descriptor inner addr)

-- The exit's listeners: the streams of a bridge at the bottom, and one around another.
pub data Listener : Type 0 where
  receiver_listener : Listener
  sosistab_listener : String → Listener → Listener
  conn_test_listener tls_listener : Listener → Listener

unfoldable pub create_listener : ObfsProtocol → Listener → Listener
create_listener (old_sosistab3_obfs cookie) bottom = sosistab_listener cookie bottom
create_listener (conn_test_obfs inner) bottom = conn_test_listener (create_listener inner bottom)
create_listener no_obfs bottom = bottom
create_listener (plain_tls_obfs inner) bottom = tls_listener (create_listener inner bottom)
create_listener (sosistab3_obfs cookie inner) bottom =
    sosistab_listener cookie (create_listener inner bottom)

-- A dialer along the route, through an address of the bridge, meets at every layer a listener of the
-- same kind, with the same cookie where there is one.
pub data Answers (addr : SocketAddr) : RouteDescriptor → Listener → Type 0 where
  tcp_answers : Answers addr (tcp_route addr) receiver_listener
  sosistab_answers :
      {r : RouteDescriptor} {l : Listener} (cookie : String)
      → Answers addr r l
      → Answers addr (sosistab3_route cookie r) (sosistab_listener cookie l)
  conn_test_answers :
      {r : RouteDescriptor} {l : Listener} (pings : ℕ)
      → Answers addr r l
      → Answers addr (conn_test_route pings r) (conn_test_listener l)
  tls_answers :
      {r : RouteDescriptor} {l : Listener} (domain : Option String)
      → Answers addr r l
      → Answers addr (plain_tls_route domain r) (tls_listener l)

-- For every protocol, the route that the broker makes of it and the listener that the exit makes of it
-- fit layer by layer: the route goes to the given address, and at each layer the listener is of the
-- dialer's kind and has its cookie.
pub protocol_to_descriptor-create_listener :
    (p : ObfsProtocol) (addr : SocketAddr)
    → Answers addr (protocol_to_descriptor p addr) (create_listener p receiver_listener)
unfolding protocol_to_descriptor create_listener
protocol_to_descriptor-create_listener (old_sosistab3_obfs cookie) addr =
    sosistab_answers cookie tcp_answers
protocol_to_descriptor-create_listener no_obfs addr = tcp_answers
protocol_to_descriptor-create_listener (conn_test_obfs inner) addr =
    conn_test_answers 1 (protocol_to_descriptor-create_listener inner addr)
protocol_to_descriptor-create_listener (plain_tls_obfs inner) addr =
    tls_answers (some "labooyah-squish.be") (protocol_to_descriptor-create_listener inner addr)
protocol_to_descriptor-create_listener (sosistab3_obfs cookie inner) addr =
    sosistab_answers cookie (protocol_to_descriptor-create_listener inner addr)
