-- ===== src/Route/Exits.antt =====
-- binaries/geph5-client/src/get_dialer.rs: the choice of an exit among those of the broker
-- (`pick_exit_with_constraint`) and the dialer to it by the bridge mode. Countries are their codes
-- and cities their names; the text of an address is a parameter, and so is the rank of an exit in the order of its
-- rendezvous score, which the code computes with floats from the exit's key and load.
pub mod Least
use Prim.Native.String.{String}
use text.Mathlib.Text.{◌==◌}
use geph.Base.{ℕ, Bool, true, ◌&&◌, List, [], ◌∷◌, Option, none, some, leb, if◌then◌else◌}
use geph.Exit.Allow.{SocketAddr, IpAddr}
use geph.Sillad.Dialer.{Attempt, delay}
use geph.Route.Dialer.{dynamic_race}

-- The load of an exit is a part of its rank only.
pub record ExitDescriptor : Type 0 where
  pub c2e_listen : SocketAddr
  pub b2e_listen : SocketAddr
  pub country : String
  pub city : String

pub data ExitConstraint : Type 0 where
  auto : ExitConstraint
  direct hostname : String → ExitConstraint
  country_only : String → ExitConstraint
  country_city : String → String → ExitConstraint

pub data Choice (Key : Type 0) : Type 0 where
  chosen : Key × ExitDescriptor → Choice Key
  -- "no exits match the constraints", and the panic on a direct constraint.
  no_match unreachable : Choice Key

-- The three tests of the filter, each passed where its constraint is absent.
pub record Constraints : Type 0 where
  pub country_constraint : Option String
  pub city_constraint : Option String
  pub hostname_constraint : Option String

unfoldable pub constraints : ExitConstraint → Option Constraints
constraints auto =
    some (record { country_constraint = none; city_constraint = none; hostname_constraint = none })
constraints (direct dir) = none
constraints (hostname host) =
    some (record {
      country_constraint = none;
      city_constraint = none;
      hostname_constraint = some host;
    })
constraints (country_only country) = some (record {
  country_constraint = some country;
  city_constraint = none;
  hostname_constraint = none;
})
constraints (country_city country city) = some (record {
  country_constraint = some country;
  city_constraint = some city;
  hostname_constraint = none;
})

unfoldable pub text_pass : Option String → String → Bool
text_pass none s = true
text_pass (some c) s = s == c

module _ {Key : Type 0} (ip_text : IpAddr → String) (rank : Key → ExitDescriptor → ℕ) where
  unfoldable pub passes : Constraints → ExitDescriptor → Bool
  passes c exit =
      text_pass c.country_constraint exit.country
      && text_pass c.city_constraint exit.city
      && text_pass c.hostname_constraint (ip_text exit.b2e_listen.ip)

  unfoldable pub filtered : Constraints → List (Key × ExitDescriptor) → List (Key × ExitDescriptor)
  filtered c [] = []
  filtered c (x ∷ xs) = let rest = filtered c xs in if passes c x.1 then x ∷ rest else rest

  -- `min_by_key`: the first of those that have the least rank.
  unfoldable pub min_by_key :
      Key × ExitDescriptor → List (Key × ExitDescriptor) → Key × ExitDescriptor
  min_by_key best [] = best
  min_by_key best (x ∷ xs) =
      min_by_key (if leb (rank best.0 best.1) (rank x.0 x.1) then best else x) xs

  unfoldable pub first_of : List (Key × ExitDescriptor) → Choice Key
  first_of [] = no_match
  first_of (x ∷ xs) = chosen (min_by_key x xs)

  unfoldable pub pick_exit_with_constraint :
      ExitConstraint → List (Key × ExitDescriptor) → Choice Key
  pick_exit_with_constraint constraint all_exits = elim (constraints constraint) [
    | none ↦ unreachable
    | some c ↦ first_of (filtered c all_exits)
  ]

pub data BridgeMode : Type 0 where
  bridge_auto force_bridges force_direct : BridgeMode

-- The dialer at the end of `get_dialer_inner`.
unfoldable pub final_dialer : {E P : Type 0} → BridgeMode → Attempt E P → Attempt E P → Attempt E P
final_dialer bridge_auto direct_dialer bridge_dialer =
    dynamic_race direct_dialer (delay 1000 bridge_dialer)
final_dialer force_bridges direct_dialer bridge_dialer = bridge_dialer
final_dialer force_direct direct_dialer bridge_dialer = direct_dialer
