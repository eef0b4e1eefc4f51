-- ===== src/Mizaru/Member.antt =====
-- What `verify_member` accepts: the key of the epoch with its branch, and, but for a collision of the
-- hash, no other key with a branch of the same length.
use geph.Base.{
  ℕ, zero, suc, ◌+◌, ◌/◌, ◌%◌, ◌^◌, ◌≤◌, ◌<◌, ◌≡◌, ◌≢◌, refl, sym, ap, ◌∙◌, ◌⊎◌, inl, inr, true,
  false, List, [], ◌∷◌, none, some, length, map, get_elem?, leb, ◌==◌, arith, Bool-cases, dec_le,
  le→leb,
}
use native.Mathlib.Nat.{pow-suc, div-div-eq-div-mul}
use geph.Mizaru.Packages.{Scheme}
use geph.Mizaru.{
  valid, panicked, generate, merkle_branch, to_public_key, accumulate, compare_root, verify_member,
}
use geph.Mizaru.Tree.{climb, parent, Branch, levels-Branch, lt-pow, some_inj}

shift_step : (epoch i : ℕ) → epoch / 2 ^ suc i ≡ epoch / 2 ^ i / 2
shift_step epoch i = ap (λ z. epoch / z) (pow-suc 2 i) ∙ sym (div-div-eq-div-mul epoch (2 ^ i) 2)

module _ (m : Scheme) where
  accumulate-climb :
      (epoch i : ℕ) (a : m.Hash) (hs : List m.Hash)
      → i + length hs ≤ 16
      → accumulate m epoch i a hs ≡ some (climb m (epoch / 2 ^ i) a hs)
  unfolding accumulate climb
  accumulate-climb epoch i a [] h = refl
  accumulate-climb epoch i a (b ∷ hs) h =
      let few : leb 16 i ≡ false = ground arith in
      elim (Bool-cases (epoch / 2 ^ i % 2 == 0)) [
        | inl e ↦
            rw (few, e)
              (accumulate-climb epoch (suc i) (m.keyed_hash a b) hs (omega arith)
                ∙ ap (λ z. some (climb m z (m.keyed_hash a b) hs)) (shift_step epoch i))
        | inr e ↦
            rw (few, e)
              (accumulate-climb epoch (suc i) (m.keyed_hash b a) hs (omega arith)
                ∙ ap (λ z. some (climb m z (m.keyed_hash b a) hs)) (shift_step epoch i))
      ]

  accumulate_past :
      (epoch i : ℕ) (a : m.Hash) (hs : List m.Hash)
      → 16 < i + length hs
      → i ≤ 16
      → accumulate m epoch i a hs ≡ none
  unfolding accumulate
  accumulate_past epoch i a [] h l = absurd (omega arith)
  accumulate_past epoch i a (b ∷ hs) h l = elim (dec_le 16 i) [
    | yes e ↦ rw (le→leb 16 i e)
    | no n ↦
        let few : leb 16 i ≡ false = ground arith in
        elim (Bool-cases (epoch / 2 ^ i % 2 == 0)) [
          | inl e ↦
              rw (few, e)
                (accumulate_past epoch (suc i) (m.keyed_hash a b) hs (omega arith) (omega arith))
          | inr e ↦
              rw (few, e)
                (accumulate_past epoch (suc i) (m.keyed_hash b a) hs (omega arith) (omega arith))
        ]
  ]

  -- A branch of more than 16 hashes makes the verifier panic, whatever the root, the epoch, the key
  -- and the hashes are.
  pub verify_member-long :
      (key : m.Hash) (epoch : ℕ) (subkey : List ℕ) (hs : List m.Hash)
      → 16 < length hs
      → verify_member m key epoch subkey hs ≡ panicked
  unfolding verify_member compare_root
  verify_member-long key epoch subkey hs h =
      rw (accumulate_past epoch 0 (m.hash subkey) hs (omega arith) (omega arith))

  leaf : m.RsaKey → m.Hash
  leaf k = m.hash (m.to_pkcs1_der (m.to_public_key k))

  get-map :
      (f : m.RsaKey → m.Hash) (ks : List m.RsaKey) (i : ℕ) (k : m.RsaKey)
      → get_elem? ks i ≡ some k
      → get_elem? (map f ks) i ≡ some (f k)
  get-map f [] i k e = absurd (cc)
  get-map f (x ∷ ks) zero k e = ap some (ap f (some_inj e))
  get-map f (x ∷ ks) (suc i) k e = get-map f ks i k e

  length-map : (f : m.RsaKey → m.Hash) (ks : List m.RsaKey) → length (map f ks) ≡ length ks
  length-map f [] = refl
  length-map f (k ∷ ks) = ap suc (length-map f ks)

  generate-Branch :
      (d epoch : ℕ) (ks : List m.RsaKey) (k : m.RsaKey)
      → length ks ≡ 2 ^ d
      → epoch < 2 ^ d
      → get_elem? ks epoch ≡ some k
      → Branch m d epoch (leaf k) (generate m ks).merkle_tree
  unfolding generate leaf
  generate-Branch d epoch ks k e h g =
      levels-Branch m d (length (map leaf ks)) epoch (map leaf ks) (leaf k) (length-map leaf ks ∙ e)
        (omega (arith, length-map leaf ks, lt-pow d)) h (get-map leaf ks epoch k g)

  verify_member-climb :
      (key : m.Hash) (epoch : ℕ) (subkey : List ℕ) (hs : List m.Hash)
      → length hs ≤ 16
      → verify_member m key epoch subkey hs
        ≡ compare_root m key (some (climb m epoch (m.hash subkey) hs))
  unfolding verify_member
  verify_member-climb key epoch subkey hs h =
      ap (compare_root m key) (accumulate-climb epoch 0 (m.hash subkey) hs (omega arith))
      ∙ ap (λ z. compare_root m key (some (climb m z (m.hash subkey) hs))) (omega arith)

  compare_root_self : (a : m.Hash) → compare_root m a (some a) ≡ valid
  unfolding compare_root
  compare_root_self a = ground arith

  compare_root-valid : (key a : m.Hash) → compare_root m key (some a) ≡ valid → a ≡ key
  unfolding compare_root
  compare_root-valid key a h = ground arith

  -- In a tree over 2^d keys, d at most 16 (the code draws 2^16), there is a root, every epoch below
  -- 2^d has a branch, of d hashes, and with it the key of the epoch is verified against the root.
  pub verify_member-merkle_branch :
      (d epoch : ℕ) (ks : List m.RsaKey) (k : m.RsaKey)
      → length ks ≡ 2 ^ d
      → d ≤ 16
      → epoch < 2 ^ d
      → get_elem? ks epoch ≡ some k
      → (key : m.Hash) × (hs : List m.Hash) × (to_public_key m (generate m ks) ≡ some key)
        × (merkle_branch m (generate m ks) epoch ≡ some hs)
        × (length hs ≡ d)
        × (verify_member m key epoch (m.to_pkcs1_der (m.to_public_key k)) hs ≡ valid)
  unfolding to_public_key merkle_branch leaf
  verify_member-merkle_branch d epoch ks k e l h g =
      let v = generate-Branch d epoch ks k e h g in
      (
        climb m epoch (leaf k) v.hashes,
        v.hashes,
        v.to_root,
        v.found,
        v.deep,
        verify_member-climb (climb m epoch (leaf k) v.hashes) epoch
              (m.to_pkcs1_der (m.to_public_key k)) v.hashes (omega (arith, v.deep))
            ∙ compare_root_self (climb m epoch (leaf k) v.hashes),
      )

  -- Two different pairs of hashes with one keyed hash.
  pub record Collision : Type 0 where
    pub one : m.Hash × m.Hash
    pub two : m.Hash × m.Hash
    pub same_hash : m.keyed_hash one.0 one.1 ≡ m.keyed_hash two.0 two.1
    pub differ : one ≢ two

  parent-binds :
      (idx : ℕ) (a a' b b' : m.Hash) → parent m idx a b ≡ parent m idx a' b' → (a ≡ a') ⊎ Collision
  parent-binds idx a a' b b' h = elim (m.Hash_discrete a a') [
    | yes e ↦ inl e
    | no n ↦ elim (Bool-cases (idx % 2 == 0)) [
      | inl p ↦ inr (record {
        one = (a, b);
        two = (a', b');
        same_hash = left p;
        differ = λ q. n (ap (λ z. z.0) q);
      })
      | inr p ↦ inr (record {
        one = (b, a);
        two = (b', a');
        same_hash = right p;
        differ = λ q. n (ap (λ z. z.1) q);
      })
    ]
  ]
    where
      left : (idx % 2 == 0) ≡ true → m.keyed_hash a b ≡ m.keyed_hash a' b'
      left p = ground (arith, h)

      right : (idx % 2 == 0) ≡ false → m.keyed_hash b a ≡ m.keyed_hash b' a'
      right p = ground (arith, h)

  climb-binds :
      (idx : ℕ) (a a' : m.Hash) (hs hs' : List m.Hash)
      → length hs ≡ length hs'
      → climb m idx a hs ≡ climb m idx a' hs'
      → (a ≡ a') ⊎ Collision
  unfolding climb
  climb-binds idx a a' [] [] l h = inl h
  climb-binds idx a a' [] (b' ∷ hs') l h = absurd (omega (arith, l))
  climb-binds idx a a' (b ∷ hs) [] l h = absurd (omega (arith, l))
  climb-binds idx a a' (b ∷ hs) (b' ∷ hs') l h =
      elim (climb-binds (idx / 2) (parent m idx a b) (parent m idx a' b') hs hs' (omega (arith, l))
        h) [ inl e ↦ parent-binds idx a a' b b' e | inr c ↦ inr c ]

  -- In a tree over 2^d keys, d at most 16: a key that is verified against the root for an epoch
  -- below 2^d, with a branch of d hashes, has the hash of the epoch's own key, or there are two
  -- different pairs of hashes with one keyed hash.
  pub verify_member-binds :
      (d epoch : ℕ) (ks : List m.RsaKey) (k : m.RsaKey) (key : m.Hash) (subkey : List ℕ)
      (hs : List m.Hash)
      → length ks ≡ 2 ^ d
      → d ≤ 16
      → epoch < 2 ^ d
      → get_elem? ks epoch ≡ some k
      → to_public_key m (generate m ks) ≡ some key
      → length hs ≡ d
      → verify_member m key epoch subkey hs ≡ valid
      → (m.hash subkey ≡ m.hash (m.to_pkcs1_der (m.to_public_key k))) ⊎ Collision
  unfolding to_public_key leaf
  verify_member-binds d epoch ks k key subkey hs e l h g r n w =
      let v = generate-Branch d epoch ks k e h g in
      let top : climb m epoch (leaf k) v.hashes ≡ key = some_inj (sym v.to_root ∙ r) in
      let got : climb m epoch (m.hash subkey) hs ≡ key =
        compare_root-valid key _
          (sym (verify_member-climb key epoch subkey hs (omega (arith, n))) ∙ w) in
      climb-binds epoch (m.hash subkey) (leaf k) hs v.hashes (n ∙ sym v.deep) (got ∙ sym top)
