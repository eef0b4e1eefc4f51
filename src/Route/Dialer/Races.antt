-- ===== src/Route/Dialer/Races.antt =====
-- When the dialer of a race, or of a fallback, connects: an account of each that does not go through the
-- pairs of which the dialer is made.
use geph.Base.{ℕ, ◌+◌, ◌≡◌, refl, sym, ap, ◌∙◌, List, [], ◌∷◌, Option, none, some, arith}
use geph.Sillad.Dialer.{
  connected, failed, Attempt, never, after, race_ok, settle, map_pipe, race, failing, delay,
  fallback,
}
use geph.Sillad.Dialer.Race.{success, earlier, success-race_ok}
use geph.Route.{race_route, fallback_route, Routes, no_routes, more_routes}
use geph.Route.Dialer.{
  Dialers, erased, dynamic_race, dynamic_fallback, route_to_dialer, race_after, fallback_after,
}

-- The first of the earliest.
unfoldable pub soonest : {P : Type 0} → List (ℕ × P) → Option (ℕ × P)
soonest [] = none
soonest (x ∷ xs) = earlier (some x) (soonest xs)

module _ {P : Type 0} where
  earlier-none : (a : Option (ℕ × P)) → earlier a none ≡ a
  unfolding earlier
  earlier-none none = refl
  earlier-none (some a) = refl

  earlier_assoc : (a b c : Option (ℕ × P)) → earlier (earlier a b) c ≡ earlier a (earlier b c)
  unfolding earlier
  earlier_assoc none b c = refl
  earlier_assoc (some a) none c = refl
  earlier_assoc (some a) (some b) none = ground arith
  earlier_assoc (some a) (some b) (some c) = ground arith

module _ {E P : Type 0} where
  dynamic_race-race_ok : (a b : Attempt E P) → dynamic_race a b ≡ race_ok a b
  unfolding dynamic_race race race_ok map_pipe settle erased
  dynamic_race-race_ok never never = refl
  dynamic_race-race_ok never (after t (connected p)) = refl
  dynamic_race-race_ok never (after t (failed e)) = refl
  dynamic_race-race_ok (after s (connected p)) never = refl
  dynamic_race-race_ok (after s (failed e)) never = refl
  dynamic_race-race_ok (after s (connected p)) (after t (connected q)) = ground arith
  dynamic_race-race_ok (after s (connected p)) (after t (failed q)) = ground arith
  dynamic_race-race_ok (after s (failed p)) (after t (connected q)) = ground arith
  dynamic_race-race_ok (after s (failed p)) (after t (failed q)) = ground arith

  pub success-dynamic_race :
      (a b : Attempt E P) → success (dynamic_race a b) ≡ earlier (success a) (success b)
  success-dynamic_race a b = rw (dynamic_race-race_ok a b) (success-race_ok a b)

-- The successes of the routes, each with its time since the dial began.
module _ {E P : Type 0} (d : Dialers E P) where
  unfoldable pub prepended : Option (ℕ × P) → List (ℕ × P) → List (ℕ × P)
  prepended none xs = xs
  prepended (some x) xs = x ∷ xs

  unfoldable pub successes : Routes → List (ℕ × P)
  successes no_routes = []
  successes (more_routes r rs) = prepended (success (route_to_dialer d r)) (successes rs)

  soonest-prepended :
      (o : Option (ℕ × P)) (xs : List (ℕ × P)) → soonest (prepended o xs) ≡ earlier o (soonest xs)
  unfolding soonest prepended earlier
  soonest-prepended none xs = refl
  soonest-prepended (some x) xs = refl

  success-race_after :
      (a : Attempt E P) (rs : Routes)
      → success (race_after d a rs) ≡ earlier (success a) (soonest (successes rs))
  unfolding route_to_dialer successes soonest
  success-race_after a no_routes = sym (earlier-none (success a))
  success-race_after a (more_routes r rs) =
      success-race_after (dynamic_race a (route_to_dialer d r)) rs
      ∙ ap (λ z. earlier z (soonest (successes rs))) (success-dynamic_race a (route_to_dialer d r))
      ∙ earlier_assoc (success a) (success (route_to_dialer d r)) (soonest (successes rs))
      ∙ ap (earlier (success a))
          (sym (soonest-prepended (success (route_to_dialer d r)) (successes rs)))

  -- The dialer of a race of any routes connects when, and with the pipe with which, the first of the
  -- earliest of all its routes does, and it does not connect when none of them does: no route that
  -- fails or hangs stands in the way of another, in whatever order they come.
  pub success-race_route :
      (rs : Routes) → success (route_to_dialer d (race_route rs)) ≡ soonest (successes rs)
  unfolding route_to_dialer successes soonest success failing
  success-race_route no_routes = refl
  success-race_route (more_routes r rs) =
      success-race_after (route_to_dialer d r) rs
      ∙ sym (soonest-prepended (success (route_to_dialer d r)) (successes rs))

  -- The routes one after the other, each from the time at which the one before it has failed.
  unfoldable pub turn_from : ℕ → Attempt E P → (ℕ → Option (ℕ × P)) → Option (ℕ × P)
  turn_from t never rest = none
  turn_from t (after s (connected p)) rest = some (t + s, p)
  turn_from t (after s (failed e)) rest = rest (t + s)

  unfoldable pub in_turn : ℕ → Routes → Option (ℕ × P)
  in_turn t no_routes = none
  in_turn t (more_routes r rs) = turn_from t (route_to_dialer d r) (λ u. in_turn u rs)

  turn_from-dynamic_fallback :
      (a b : Attempt E P) (rest : ℕ → Option (ℕ × P))
      → turn_from 0 (dynamic_fallback a b) rest ≡ turn_from 0 a (λ u. turn_from u b rest)
  unfolding turn_from dynamic_fallback fallback map_pipe erased delay
  turn_from-dynamic_fallback never b rest = refl
  turn_from-dynamic_fallback (after s (connected p)) b rest = refl
  turn_from-dynamic_fallback (after s (failed e)) never rest = refl
  turn_from-dynamic_fallback (after s (failed e)) (after t (connected p)) rest =
      ap (λ u. some (u, p)) (omega arith)
  turn_from-dynamic_fallback (after s (failed e)) (after t (failed f)) rest = ap rest (omega arith)

  success-turn_from : (a : Attempt E P) → success a ≡ turn_from 0 a (λ u. none)
  unfolding success turn_from
  success-turn_from never = refl
  success-turn_from (after t (connected p)) = ap (λ u. some (u, p)) (omega arith)
  success-turn_from (after t (failed e)) = refl

  success-fallback_after :
      (a : Attempt E P) (rs : Routes)
      → success (fallback_after d a rs) ≡ turn_from 0 a (λ u. in_turn u rs)
  unfolding route_to_dialer in_turn
  success-fallback_after a no_routes = success-turn_from a
  success-fallback_after a (more_routes r rs) =
      success-fallback_after (dynamic_fallback a (route_to_dialer d r)) rs
      ∙ turn_from-dynamic_fallback a (route_to_dialer d r) (λ u. in_turn u rs)

  -- The dialer of a fallback tries its routes one after the other, each from the time at which the one
  -- before it has failed, and connects with the first that connects; behind a route that hangs, none
  -- is tried.
  pub success-fallback_route :
      (rs : Routes) → success (route_to_dialer d (fallback_route rs)) ≡ in_turn 0 rs
  unfolding route_to_dialer in_turn success failing
  success-fallback_route no_routes = refl
  success-fallback_route (more_routes r rs) = success-fallback_after (route_to_dialer d r) rs
