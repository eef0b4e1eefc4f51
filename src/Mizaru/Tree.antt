-- ===== src/Mizaru/Tree.antt =====
-- The tree over 2^d hashes: the branch of every position leads from its hash to the root.
use geph.Base.{
  ℕ, zero, suc, ◌*◌, ◌/◌, ◌%◌, ◌^◌, ◌≤◌, ◌<◌, ◌≡◌, refl, sym, ap, subst, ◌∙◌, List, [], ◌∷◌, some,
  length, get_elem?, ltb, ◌==◌, if◌then◌else◌, arith, Bool-cases, inl, inr, lt→ltb,
}
use native.Mathlib.Nat.{pow-suc}
use geph.Mizaru.Packages.{Scheme}
use geph.Mizaru.{other, decimate, levels, branch, root}

other_0 : other 0 ≡ 1
unfolding other
other_0 = refl

other_1 : other 1 ≡ 0
unfolding other
other_1 = refl

other_step : (i : ℕ) → other (suc (suc i)) ≡ suc (suc (other i))
unfolding other
other_step i = omega arith

pub lt-pow : (d : ℕ) → d < 2 ^ d
lt-pow zero = omega arith
lt-pow (suc d) = omega (arith, lt-pow d, pow-suc 2 d)

pow_pos : (d : ℕ) → 1 ≤ 2 ^ d
pow_pos d = omega (arith, lt-pow d)

pub some_inj : {A : Type 0} {a b : A} → some a ≡ some b → a ≡ b
some_inj e = cc

module _ (m : Scheme) where
  length-decimate : (n : ℕ) (hs : List m.Hash) → length hs ≡ 2 * n → length (decimate m hs) ≡ n
  unfolding decimate
  length-decimate n [] e = omega (arith, e)
  length-decimate n (a ∷ []) e = absurd (omega (arith, e))
  length-decimate zero (a ∷ b ∷ hs) e = absurd (omega (arith, e))
  length-decimate (suc n) (a ∷ b ∷ hs) e = ap suc (length-decimate n hs (omega (arith, e)))

  -- A hash with its sibling, in the order of their positions.
  abbrev pub parent : ℕ → m.Hash → m.Hash → m.Hash
  parent i a b = if i % 2 == 0 then m.keyed_hash a b else m.keyed_hash b a

  -- A position has a sibling, and half the position has their parent.
  record Pair (hs : List m.Hash) (i : ℕ) : Type 0 where
    self : m.Hash
    sibling : m.Hash
    at_self : get_elem? hs i ≡ some self
    at_sibling : get_elem? hs (other i) ≡ some sibling
    at_parent : get_elem? (decimate m hs) (i / 2) ≡ some (parent i self sibling)

  parent_step : (i : ℕ) (a b : m.Hash) → parent i a b ≡ parent (suc (suc i)) a b
  parent_step i a b =
      let e : (suc (suc i)) % 2 ≡ i % 2 = omega arith in
      ap (λ z. if z == 0 then m.keyed_hash a b else m.keyed_hash b a) (sym e)

  half_step : (i : ℕ) → suc (suc i) / 2 ≡ suc (i / 2)
  half_step i = omega arith

  decimate-Pair : (n i : ℕ) (hs : List m.Hash) → length hs ≡ 2 * n → i < 2 * n → Pair hs i
  unfolding decimate
  decimate-Pair n i [] e h = absurd (omega (arith, e))
  decimate-Pair n i (a ∷ []) e h = absurd (omega (arith, e))
  decimate-Pair n zero (a ∷ b ∷ hs) e h = record {
    self = a;
    sibling = b;
    at_self = refl;
    at_sibling = ap (get_elem? (a ∷ b ∷ hs)) other_0;
    at_parent = refl;
  }
  decimate-Pair n (suc zero) (a ∷ b ∷ hs) e h = record {
    self = b;
    sibling = a;
    at_self = refl;
    at_sibling = ap (get_elem? (a ∷ b ∷ hs)) other_1;
    at_parent = refl;
  }
  decimate-Pair zero (suc (suc i)) (a ∷ b ∷ hs) e h = absurd (omega arith)
  decimate-Pair (suc n) (suc (suc i)) (a ∷ b ∷ hs) e h =
      let p = decimate-Pair n i hs (omega (arith, e)) (omega arith) in
      record {
        self = p.self;
        sibling = p.sibling;
        at_self = p.at_self;
        at_sibling = ap (get_elem? (a ∷ b ∷ hs)) (other_step i) ∙ p.at_sibling;
        at_parent =
            ap (get_elem? (decimate m (a ∷ b ∷ hs))) (half_step i)
            ∙ p.at_parent
            ∙ ap some (parent_step i p.self p.sibling);
      }

  -- The root that a hash at a position and the siblings above it come to.
  unfoldable pub climb : ℕ → m.Hash → List m.Hash → m.Hash
  climb idx a [] = a
  climb idx a (h ∷ hs) = climb (idx / 2) (parent idx a h) hs

  levels_cons :
      (fuel : ℕ) (level : List m.Hash)
      → (above : List (List m.Hash)) × (levels m fuel level ≡ level ∷ above)
  unfolding levels
  levels_cons zero level = ([], refl)
  levels_cons (suc fuel) level = elim (Bool-cases (ltb 1 (length level))) [
    | inl e ↦ (levels m fuel (decimate m level), rw e)
    | inr e ↦ ([], rw e)
  ]

  levels_step :
      (fuel : ℕ) (level : List m.Hash)
      → 1 < length level
      → levels m (suc fuel) level ≡ level ∷ levels m fuel (decimate m level)
  unfolding levels
  levels_step fuel level h = rw (lt→ltb 1 (length level) h)

  levels_last :
      (fuel : ℕ) (level : List m.Hash) → length level ≡ 1 → levels m fuel level ≡ level ∷ []
  unfolding levels
  levels_last zero level h = refl
  levels_last (suc fuel) level h = rw h

  branch_step :
      (idx : ℕ) (level next : List m.Hash) (above : List (List m.Hash)) (h : m.Hash)
      (hs : List m.Hash)
      → get_elem? level (other idx) ≡ some h
      → branch m (idx / 2) (next ∷ above) ≡ some hs
      → branch m idx (level ∷ next ∷ above) ≡ some (h ∷ hs)
  unfolding branch
  branch_step idx level next above h hs e f = rw (e, f, branch)

  -- The branch of a position, and the root, in a tree over 2^d hashes.
  pub record Branch (d idx : ℕ) (a : m.Hash) (tree : List (List m.Hash)) : Type 0 where
    pub hashes : List m.Hash
    pub found : branch m idx tree ≡ some hashes
    pub deep : length hashes ≡ d
    pub to_root : root m tree ≡ some (climb idx a hashes)

  Branch-step :
      (d idx : ℕ) (a sibling : m.Hash) (level next : List m.Hash) (above : List (List m.Hash))
      → get_elem? level (other idx) ≡ some sibling
      → Branch d (idx / 2) (parent idx a sibling) (next ∷ above)
      → Branch (suc d) idx a (level ∷ next ∷ above)
  unfolding root climb
  Branch-step d idx a sibling level next above e v = record {
    hashes = sibling ∷ v.hashes;
    found = branch_step idx level next above sibling v.hashes e v.found;
    deep = ap suc v.deep;
    to_root = v.to_root;
  }

  pub levels-Branch :
      (d fuel idx : ℕ) (level : List m.Hash) (a : m.Hash)
      → length level ≡ 2 ^ d
      → d ≤ fuel
      → idx < 2 ^ d
      → get_elem? level idx ≡ some a
      → Branch d idx a (levels m fuel level)
  unfolding branch root climb
  levels-Branch zero fuel zero level a e f h g =
      rw (levels_last fuel level e) (record { hashes = []; found = refl; deep = refl; to_root = g })
  levels-Branch zero fuel (suc idx) level a e f h g = absurd (omega arith)
  levels-Branch (suc d) zero idx level a e f h g = absurd (omega arith)
  levels-Branch (suc d) (suc fuel) idx level a e f h g =
      let size : length level ≡ 2 * 2 ^ d = e ∙ omega (arith, pow-suc 2 d) in
      let p = decimate-Pair (2 ^ d) idx level size (omega (arith, pow-suc 2 d)) in
      let ih =
        levels-Branch d fuel (idx / 2) (decimate m level) (parent idx p.self p.sibling)
          (length-decimate (2 ^ d) level size) (omega arith) (omega (arith, pow-suc 2 d))
          p.at_parent in
      let (above, q) = levels_cons fuel (decimate m level) in
      let self : p.self ≡ a = some_inj (sym p.at_self ∙ g) in
      subst (Branch (suc d) idx a)
        (sym (levels_step fuel level (omega (arith, pow_pos d)) ∙ ap (λ z. level ∷ z) q))
        (Branch-step d idx a p.sibling level (decimate m level) above p.at_sibling (
          subst (λ z. Branch d (idx / 2) (parent idx z p.sibling) (decimate m level ∷ above)) self
            (subst (Branch d (idx / 2) (parent idx p.self p.sibling)) q ih)))
