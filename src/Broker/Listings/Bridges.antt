-- ===== src/Broker/Listings/Bridges.antt =====
-- `get_routes` of binaries/geph5-broker/src/rpc_impl.rs: the routes through the bridges that `query_bridges`
-- gives, in its order, for one token; and which exits and bridges a free user hears of. What the
-- bridges answer is part of them, as the function `tcp_forward`.
use Prim.Native.String.{String}
use geph.Base.{
  ℕ, ◌≡◌, refl, sym, ap, ◌∙◌, Bool, true, false, not, ◌||◌, List, [], ◌∷◌, Option, none, some,
  if◌then◌else◌, Bool-cases, Option-cases, inl, inr, Among, subst,
}
use geph.Mizaru.Tree.{some_inj}
use geph.Exit.Allow.{SocketAddr}
use geph.Exit.Auth.{AccountLevel, free, plus}
use geph.Mizaru.Packages.{Scheme}
use geph.Mizaru.{Verdict, valid, invalid, panicked, UnblindedSignature, blind_verify}
use geph.Route.{ObfsProtocol, RouteDescriptor, race_route, Routes, no_routes, more_routes}
use geph.Route.Leaf.{Pool, bridge_to_leaf_route, IsServed, bridge_to_leaf_route-IsServed}
use geph.Broker.Listings.{Announced, Rows, is_plus_exit, free_exits}
use geph.Broker.Tokens.{is_plus}

pub record Bridge : Type 0 where
  pub pool : Pool
  pub delay_ms : ℕ
  pub plus_only : Bool
  -- The cookie that is drawn for its route.
  pub cookie : String
  pub tcp_forward : ObfsProtocol → Option SocketAddr

-- `None` is the error, for a token that neither key has signed; a panic ends the service.
unfoldable pub account_level : Verdict → Verdict → Option AccountLevel
account_level valid as_free = some plus
account_level invalid valid = some free
account_level invalid invalid = none
account_level invalid panicked = none
account_level panicked as_free = none

-- Routes that fail are left out.
unfoldable pub add_route : Option RouteDescriptor → Routes → Routes
add_route none rs = rs
add_route (some r) rs = more_routes r rs

unfoldable pub leaf_routes : AccountLevel → List Bridge → Routes
leaf_routes level [] = no_routes
leaf_routes level (b ∷ bs) =
    let rest = leaf_routes level bs in
    if is_plus level || not b.plus_only
    then add_route (bridge_to_leaf_route b.tcp_forward b.pool b.delay_ms b.cookie) rest
    else rest

module _ (m : Scheme) (root_of : AccountLevel → m.Hash) where
  unfoldable pub level_of_token : List ℕ → UnblindedSignature m → Option AccountLevel
  level_of_token token sig =
      account_level (blind_verify m (root_of plus) token sig)
        (blind_verify m (root_of free) token sig)

  unfoldable pub get_routes : List ℕ → UnblindedSignature m → List Bridge → Option RouteDescriptor
  get_routes token sig bridges = elim (level_of_token token sig) [
    | none ↦ none
    | some level ↦ some (race_route (leaf_routes level bridges))
  ]

-- A route of one of the bridges, which that bridge and the exit serve.
pub record IsOffered (level : AccountLevel) (bridges : List Bridge) (r : RouteDescriptor)
    : Type 0 where
  pub bridge : Bridge
  pub known : Among bridge bridges
  pub for_level : (is_plus level || not bridge.plus_only) ≡ true
  pub served : IsServed bridge.tcp_forward r

unfoldable pub AreOffered : AccountLevel → List Bridge → Routes → Type 0
AreOffered level bridges no_routes = Unit
AreOffered level bridges (more_routes r rs) =
    IsOffered level bridges r × AreOffered level bridges rs

AreOffered-more :
    (level : AccountLevel) (b : Bridge) (bs : List Bridge) (rs : Routes)
    → AreOffered level bs rs
    → AreOffered level (b ∷ bs) rs
unfolding AreOffered
AreOffered-more level b bs no_routes h = tt
AreOffered-more level b bs (more_routes r rs) h = (
  record {
    bridge = h.0.bridge;
    known = inr h.0.known;
    for_level = h.0.for_level;
    served = h.0.served;
  },
  AreOffered-more level b bs rs h.1,
)

add_route-AreOffered :
    (level : AccountLevel) (b : Bridge) (bs : List Bridge) (rs : Routes)
    (o : Option RouteDescriptor)
    → bridge_to_leaf_route b.tcp_forward b.pool b.delay_ms b.cookie ≡ o
    → (is_plus level || not b.plus_only) ≡ true
    → AreOffered level (b ∷ bs) rs
    → AreOffered level (b ∷ bs) (add_route o rs)
unfolding add_route AreOffered
add_route-AreOffered level b bs rs none e t h = h
add_route-AreOffered level b bs rs (some r) e t h = (
  record {
    bridge = b;
    known = inl refl;
    for_level = t;
    served = bridge_to_leaf_route-IsServed b.tcp_forward b.pool b.delay_ms b.cookie r e;
  },
  h,
)

leaf_routes-AreOffered :
    (level : AccountLevel) (bs : List Bridge) → AreOffered level bs (leaf_routes level bs)
unfolding leaf_routes AreOffered
leaf_routes-AreOffered level [] = tt
leaf_routes-AreOffered level (b ∷ bs) =
    let rest =
      AreOffered-more level b bs (leaf_routes level bs) (leaf_routes-AreOffered level bs) in
    elim (Bool-cases (is_plus level || not b.plus_only)) [
      | inl t ↦
          subst
            (λ c. AreOffered level (b ∷ bs) (
              if c
              then add_route (bridge_to_leaf_route b.tcp_forward b.pool b.delay_ms b.cookie)
                  (leaf_routes level bs)
              else leaf_routes level bs))
            (sym t) (add_route-AreOffered level b bs (leaf_routes level bs) _ refl t rest)
      | inr t ↦
          subst
            (λ c. AreOffered level (b ∷ bs) (
              if c
              then add_route (bridge_to_leaf_route b.tcp_forward b.pool b.delay_ms b.cookie)
                  (leaf_routes level bs)
              else leaf_routes level bs))
            (sym t) rest
    ]

account_level_valid :
    (p f : Verdict) (level : AccountLevel)
    → account_level p f ≡ some level
    → (elim level as (λ _. Verdict) [ plus ↦ p | free ↦ f ]) ≡ valid
unfolding account_level
account_level_valid valid f plus e = refl
account_level_valid valid f free e = absurd (cc)
account_level_valid invalid valid plus e = absurd (cc)
account_level_valid invalid valid free e = refl
account_level_valid invalid invalid level e = absurd (cc)
account_level_valid invalid panicked level e = absurd (cc)
account_level_valid panicked f level e = absurd (cc)

level_of_token-valid :
    (m : Scheme) (root_of : AccountLevel → m.Hash) (token : List ℕ) (sig : UnblindedSignature m)
    (level : AccountLevel)
    → level_of_token m root_of token sig ≡ some level
    → blind_verify m (root_of level) token sig ≡ valid
unfolding level_of_token
level_of_token-valid m root_of token sig plus e = account_level_valid _ _ plus e
level_of_token-valid m root_of token sig free e = account_level_valid _ _ free e

-- The broker answers with routes only a token that verifies under the root of a level. Every route is
-- one through a bridge that it knows, and which that bridge and the exit's listeners serve; and if the
-- level is free, so that the token does not verify as a plus one, none of these bridges is for plus
-- users only.
pub get_routes-AreOffered :
    (m : Scheme) (root_of : AccountLevel → m.Hash) (token : List ℕ) (sig : UnblindedSignature m)
    (bridges : List Bridge) (route : RouteDescriptor)
    → get_routes m root_of token sig bridges ≡ some route
    → (level : AccountLevel) × (rs : Routes) × (route ≡ race_route rs)
      × (blind_verify m (root_of level) token sig ≡ valid)
      × AreOffered level bridges rs
unfolding get_routes
get_routes-AreOffered m root_of token sig bridges route e =
    elim (Option-cases (level_of_token m root_of token sig)) [
      | inl v ↦
          let k : ◌≡◌ {A = Option RouteDescriptor} none (some route) =
            sym (rw (v, get_routes) refl) ∙ e in
          absurd (cc)
      | inr (level, v) ↦
          let k : some (race_route (leaf_routes level bridges)) ≡ some route =
            sym (rw (v, get_routes) refl) ∙ e in
          (
            level,
            leaf_routes level bridges,
            sym (some_inj k),
            level_of_token-valid m root_of token sig level v,
            leaf_routes-AreOffered level bridges,
          )
    ]

free_exits_sound :
    (rows : Rows) (x : List ℕ × Announced)
    → Among x (free_exits rows)
    → Among x rows × (is_plus_exit x.1.exit ≡ false)
unfolding free_exits
free_exits_sound [] x h = absurd h
free_exits_sound ((k, a) ∷ rows) x h = elim (Bool-cases (is_plus_exit a.exit)) [
  | inl e ↦
      let (known, not_plus) =
        free_exits_sound rows x (
          subst (Among x) (ap (λ b. if b then free_exits rows else (k, a) ∷ free_exits rows) e)
            h) in
      (inr known, not_plus)
  | inr e ↦
      let h' : Among x ((k, a) ∷ free_exits rows) =
        subst (Among x) (ap (λ b. if b then free_exits rows else (k, a) ∷ free_exits rows) e) h in
      elim h' [
        | inl same ↦ (inl same, ap (λ (z : List ℕ × Announced). is_plus_exit z.1.exit) same ∙ e)
        | inr later ↦ let (known, not_plus) = free_exits_sound rows x later in (inr known, not_plus)
      ]
]
