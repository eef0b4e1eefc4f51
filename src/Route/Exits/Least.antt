-- ===== src/Route/Exits/Least.antt =====
-- Which exit is chosen, and when the dialer to it connects directly.
use Prim.Native.String.{String}
use geph.Base.{
  Among, ◌<◌, ℕ, ◌≤◌, ◌≡◌, refl, ap, ◌∙◌, true, false, List, [], ◌∷◌, some, leb, arith, Bool-cases,
  inl, inr, All, ◌⊎◌, leb→le,
}
use geph.Exit.Allow.{IpAddr}
use geph.Route.Exits.{
  ExitDescriptor, ExitConstraint, Choice, chosen, no_match, unreachable, Constraints, constraints,
  passes, filtered, min_by_key, first_of, pick_exit_with_constraint,
}

module _ {Key : Type 0} (ip_text : IpAddr → String) (rank : Key → ExitDescriptor → ℕ) where
  abbrev Exit : Type 0
  Exit = Key × ExitDescriptor

  abbrev rank_of : Exit → ℕ
  rank_of x = rank x.0 x.1

  -- One of the exits that pass, and none that passes is of a lower rank.
  pub record IsLeast (c : Constraints) (exits : List Exit) (x : Exit) : Type 0 where
    pub listed : Among x exits
    pub passing : passes ip_text rank c x.1 ≡ true
    pub least : All (λ y. passes ip_text rank c y.1 ≡ true → rank_of x ≤ rank_of y) exits

  unfoldable pub IsBest : Constraints → List Exit → Choice Key → Type 0
  IsBest c exits (chosen x) = IsLeast c exits x
  IsBest c exits no_match = All (λ y. passes ip_text rank c y.1 ≡ false) exits
  IsBest c exits unreachable = ⊥

  record MinOf (best : Exit) (xs : List Exit) (m : Exit) : Type 0 where
    among : (m ≡ best) ⊎ Among m xs
    below : rank_of m ≤ rank_of best
    below_all : All (λ y. rank_of m ≤ rank_of y) xs

  min_by_key-MinOf :
      (best : Exit) (xs : List Exit) → MinOf best xs (min_by_key ip_text rank best xs)
  unfolding min_by_key
  min_by_key-MinOf best [] = record { among = inl refl; below = omega arith; below_all = tt }
  min_by_key-MinOf best (x ∷ xs) = elim (Bool-cases (leb (rank_of best) (rank_of x))) [
    | inl e ↦
        let m = min_by_key-MinOf best xs in
        let le = leb→le (rank_of best) (rank_of x) e in
        rw e (record {
          among = elim m.among [ inl a ↦ inl a | inr b ↦ inr (inr b) ];
          below = m.below;
          below_all = (omega (arith, m.below, le), m.below_all);
        })
    | inr e ↦
        let m = min_by_key-MinOf x xs in
        let lt : rank_of x < rank_of best = ground arith in
        rw e (record {
          among = elim m.among [ inl a ↦ inr (inl a) | inr b ↦ inr (inr b) ];
          below = omega (arith, m.below, lt);
          below_all = (m.below, m.below_all);
        })
  ]

  record Filters (c : Constraints) (xs ys : List Exit) : Type 0 where
    kept : (y : Exit) → Among y ys → Among y xs × (passes ip_text rank c y.1 ≡ true)
    all_kept :
        (n : Exit)
        → All (λ y. rank_of n ≤ rank_of y) ys
        → All (λ y. passes ip_text rank c y.1 ≡ true → rank_of n ≤ rank_of y) xs
    nothing : ys ≡ [] → All (λ y. passes ip_text rank c y.1 ≡ false) xs

  filtered-Filters : (c : Constraints) (xs : List Exit) → Filters c xs (filtered ip_text rank c xs)
  unfolding filtered
  filtered-Filters c [] = record { kept = λ y h. absurd h; all_kept = λ n h. tt; nothing = λ e. tt }
  filtered-Filters c (x ∷ xs) =
      let f = filtered-Filters c xs in
      elim (Bool-cases (passes ip_text rank c x.1)) [
        | inl e ↦ rw e (record {
          kept = λ y h. elim h [
            | inl same ↦ (inl same, ap (λ z. passes ip_text rank c z.1) same ∙ e)
            | inr m ↦ let (a, b) = f.kept y m in (inr a, b)
          ];
          all_kept = λ n h. (λ p. h.0, f.all_kept n h.1);
          nothing = λ none_left. absurd (cc);
        })
        | inr e ↦ rw e (record {
          kept = λ y h. let (a, b) = f.kept y h in (inr a, b);
          all_kept = λ n h. (λ p. absurd (cc), f.all_kept n h);
          nothing = λ none_left. (e, f.nothing none_left);
        })
      ]

  first_of-IsBest :
      (c : Constraints) (xs ys : List Exit)
      → Filters c xs ys
      → IsBest c xs (first_of ip_text rank ys)
  unfolding first_of IsBest
  first_of-IsBest c xs [] f = f.nothing refl
  first_of-IsBest c xs (y ∷ ys) f =
      let m = min_by_key-MinOf y ys in
      let k = f.kept (min_by_key ip_text rank y ys) m.among in
      record {
        listed = k.0;
        passing = k.1;
        least = f.all_kept (min_by_key ip_text rank y ys) (m.below, m.below_all);
      }

  -- Under every constraint that is not a direct one, an exit is chosen unless none of the broker's
  -- passes the constraint's tests; the one that is chosen is of the broker's, passes them, and no
  -- other that passes them is of a lower rank.
  pub pick_exit_with_constraint-IsBest :
      (constraint : ExitConstraint) (c : Constraints) (exits : List Exit)
      → constraints constraint ≡ some c
      → IsBest c exits (pick_exit_with_constraint ip_text rank constraint exits)
  unfolding pick_exit_with_constraint
  pick_exit_with_constraint-IsBest constraint c exits e =
      rw (e, pick_exit_with_constraint) (first_of-IsBest c exits _ (filtered-Filters c exits))
