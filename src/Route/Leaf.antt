-- ===== src/Route/Leaf.antt =====
-- binaries/geph5-broker/src/routes.rs: the routes through one bridge. The call to the bridge, with its
-- time limit, is a parameter: the address on which the bridge forwards, or none for an error.
use Prim.Native.String.{String}
use geph.Base.{
  ℕ, ◌≡◌, refl, Bool, Option, none, some, if◌then◌else◌, Option-cases, Bool-cases, inl, inr, subst,
}
use geph.Mizaru.Tree.{some_inj}
use geph.Exit.Allow.{SocketAddr}
use geph.Route.{
  ObfsProtocol, no_obfs, conn_test_obfs, plain_tls_obfs, sosistab3_obfs, RouteDescriptor,
  fallback_route, delay_route, no_routes, more_routes, protocol_to_descriptor, Answers,
  receiver_listener, create_listener, protocol_to_descriptor-create_listener,
}

-- What the broker knows of a bridge's pool, by tests for "waw" and "rbxa" in its name.
pub record Pool : Type 0 where
  pub has_waw : Bool
  pub has_rbxa : Bool

module _ (tcp_forward : ObfsProtocol → Option SocketAddr) where
  unfoldable pub bridge_to_leaf_route_inner : ObfsProtocol → Option RouteDescriptor
  bridge_to_leaf_route_inner protocol = elim (tcp_forward protocol) [
    | none ↦ none
    | some sosistab_addr ↦ some (protocol_to_descriptor protocol sosistab_addr)
  ]

  unfoldable pub delayed : ℕ → Option RouteDescriptor → Option RouteDescriptor
  delayed delay_ms none = none
  delayed delay_ms (some route) = some (delay_route delay_ms route)

  unfoldable pub with_fallback :
      Option RouteDescriptor → Option RouteDescriptor → Option RouteDescriptor
  with_fallback none legacy = none
  with_fallback (some plain) none = none
  with_fallback (some plain) (some legacy) =
      some (fallback_route (more_routes plain (more_routes legacy no_routes)))

  -- What `bridge_to_leaf_route` computes when its cache has nothing, with the cookie that it draws.
  unfoldable pub bridge_to_leaf_route : Pool → ℕ → String → Option RouteDescriptor
  bridge_to_leaf_route pool delay_ms cookie =
      if pool.has_waw
      then delayed delay_ms (
          bridge_to_leaf_route_inner
            (conn_test_obfs (sosistab3_obfs cookie (plain_tls_obfs no_obfs))))
      else if pool.has_rbxa
      then delayed delay_ms (bridge_to_leaf_route_inner (conn_test_obfs no_obfs))
      else delayed delay_ms (
          with_fallback
            (bridge_to_leaf_route_inner (conn_test_obfs (sosistab3_obfs cookie no_obfs)))
            (bridge_to_leaf_route_inner no_obfs))

  -- A route that is delayed, falls back, or goes to an address on which the bridge forwards for some
  -- protocol, to an exit whose listener for that protocol fits it.
  pub data IsServed : RouteDescriptor → Type 0 where
    delay_served : {r : RouteDescriptor} (ms : ℕ) → IsServed r → IsServed (delay_route ms r)
    fallback_served :
        {r s : RouteDescriptor}
        → IsServed r
        → IsServed s
        → IsServed (fallback_route (more_routes r (more_routes s no_routes)))
    leaf_served :
        {r : RouteDescriptor} (p : ObfsProtocol) (addr : SocketAddr)
        → tcp_forward p ≡ some addr
        → Answers addr r (create_listener p receiver_listener)
        → IsServed r

  -- What a delay, and a pair of a route and its fallback, keep of routes that are served.
  pub record Served (o : Option RouteDescriptor) : Type 0 where
    pub served : (r : RouteDescriptor) → o ≡ some r → IsServed r

  Served-none : Served none
  Served-none = record { served = λ r e. absurd (cc) }

  Served-some : (r : RouteDescriptor) → IsServed r → Served (some r)
  Served-some r h = record { served = λ s e. subst IsServed (some_inj e) h }

  Served-inner : (p : ObfsProtocol) → Served (bridge_to_leaf_route_inner p)
  unfolding bridge_to_leaf_route_inner
  Served-inner p = elim (Option-cases (tcp_forward p)) [
    | inl e ↦ rw (e, bridge_to_leaf_route_inner) Served-none
    | inr (addr, e) ↦
        rw (e, bridge_to_leaf_route_inner)
          (Served-some _ (leaf_served p addr e (protocol_to_descriptor-create_listener p addr)))
  ]

  Served-delayed : (ms : ℕ) (o : Option RouteDescriptor) → Served o → Served (delayed ms o)
  unfolding delayed
  Served-delayed ms none h = Served-none
  Served-delayed ms (some r) h = Served-some _ (delay_served ms (h.served r refl))

  Served-with_fallback :
      (a b : Option RouteDescriptor) → Served a → Served b → Served (with_fallback a b)
  unfolding with_fallback
  Served-with_fallback none b h k = Served-none
  Served-with_fallback (some r) none h k = Served-none
  Served-with_fallback (some r) (some s) h k =
      Served-some _ (fallback_served (h.served r refl) (k.served s refl))

  -- For a bridge of any pool, with any delay and cookie: every leaf of the route that the broker makes
  -- goes to an address on which the bridge forwards for some protocol, and the listener that the exit
  -- makes for the same protocol fits the leaf layer by layer.
  pub bridge_to_leaf_route-IsServed :
      (pool : Pool) (delay_ms : ℕ) (cookie : String) (r : RouteDescriptor)
      → bridge_to_leaf_route pool delay_ms cookie ≡ some r
      → IsServed r
  unfolding bridge_to_leaf_route
  bridge_to_leaf_route-IsServed pool delay_ms cookie r = Served.served all r
    where
      all : Served (bridge_to_leaf_route pool delay_ms cookie)
      all = elim (Bool-cases pool.has_waw) [
        | inl e ↦ rw e (Served-delayed delay_ms _ (Served-inner _))
        | inr e ↦ elim (Bool-cases pool.has_rbxa) [
          | inl f ↦ rw (e, f) (Served-delayed delay_ms _ (Served-inner _))
          | inr f ↦
              rw (e, f)
                (Served-delayed delay_ms _
                  (Served-with_fallback _ _ (Served-inner _) (Served-inner _)))
        ]
      ]
