-- ===== src/Mizaru.antt =====
-- libraries/mizaru2/src/lib.rs: the tree of hashes over one key for each epoch, the branch that goes
-- out with a blind signature, and its verification. Hashes, keys and signatures come from packages.
pub mod Packages
pub mod Tree
pub mod Member
pub mod Blind
pub mod Tests
use geph.Base.{
  ℕ, zero, suc, ◌+◌, ◌*◌, ◌/◌, ◌%◌, ◌^◌, Bool, true, false, List, [], ◌∷◌, Option, none, some,
  length, map, get_elem?, leb, ltb, ◌==◌, if◌then◌else◌,
}
use geph.Mizaru.Packages.{Scheme}

-- `unix_to_epoch`, and `current_epoch` of the current time: the cast to 16 bits is written out.
unfoldable pub unix_to_epoch : ℕ → ℕ
unix_to_epoch unix = unix / 86400 % 2 ^ 16

-- Whether something holds, fails, or panics.
pub data Verdict : Type 0 where
  valid invalid panicked : Verdict

-- The position of the sibling.
unfoldable pub other : ℕ → ℕ
other i = i / 2 * 2 + (i + 1) % 2

module _ (m : Scheme) where
  -- The next level of the tree; a last hash without a sibling is left out.
  unfoldable pub decimate : List m.Hash → List m.Hash
  decimate [] = []
  decimate (a ∷ []) = []
  decimate (a ∷ b ∷ hs) = m.keyed_hash a b ∷ decimate hs

  -- The levels above one, as long as there are two hashes in it; the fuel is its length.
  unfoldable pub levels : ℕ → List m.Hash → List (List m.Hash)
  levels zero level = level ∷ []
  levels (suc fuel) level =
      let rest = levels fuel (decimate level) in
      if ltb 1 (length level) then level ∷ rest else level ∷ []

  pub record SecretKey : Type 0 where
    pub rsa_keys : List m.RsaKey
    pub merkle_tree : List (List m.Hash)

  -- `generate`, from the keys that it draws.
  unfoldable pub generate : List m.RsaKey → SecretKey
  generate rsa_keys =
      let first = map (λ k. m.hash (m.to_pkcs1_der (m.to_public_key k))) rsa_keys in
      record { rsa_keys = rsa_keys; merkle_tree = levels (length first) first }

  -- The siblings on the way up, at each level but the last; `none` where the code would panic.
  unfoldable pub branch : ℕ → List (List m.Hash) → Option (List m.Hash)
  branch idx [] = none
  branch idx (level ∷ []) = some []
  branch idx (level ∷ next ∷ above) =
      let rest = branch (idx / 2) (next ∷ above) in
      elim (get_elem? level (other idx)) [
        | none ↦ none
        | some sibling ↦ elim rest [ none ↦ none | some hs ↦ some (sibling ∷ hs) ]
      ]

  unfoldable pub merkle_branch : SecretKey → ℕ → Option (List m.Hash)
  merkle_branch sk idx = branch idx sk.merkle_tree

  -- The first hash of the last level.
  unfoldable pub root : List (List m.Hash) → Option m.Hash
  root [] = none
  root (level ∷ []) = get_elem? level 0
  root (level ∷ next ∷ above) = root (next ∷ above)

  unfoldable pub to_public_key : SecretKey → Option m.Hash
  to_public_key sk = root sk.merkle_tree

  -- The loop of `verify_member` from position `i`. A shift of the 16-bit epoch by 16 or more panics,
  -- since the release profile keeps overflow checks.
  unfoldable pub accumulate : ℕ → ℕ → m.Hash → List m.Hash → Option m.Hash
  accumulate epoch i acc [] = some acc
  accumulate epoch i acc (h ∷ hs) =
      let left = accumulate epoch (suc i) (m.keyed_hash acc h) hs in
      let right = accumulate epoch (suc i) (m.keyed_hash h acc) hs in
      if leb 16 i then none else if epoch / 2 ^ i % 2 == 0 then left else right

  unfoldable pub compare_root : m.Hash → Option m.Hash → Verdict
  compare_root key none = panicked
  compare_root key (some acc) = elim (m.Hash_discrete acc key) [ yes e ↦ valid | no n ↦ invalid ]

  unfoldable pub verify_member : m.Hash → ℕ → List ℕ → List m.Hash → Verdict
  verify_member key epoch subkey merkle_branch =
      compare_root key (accumulate epoch 0 (m.hash subkey) merkle_branch)

  pub record BlindedSignature : Type 0 where
    pub epoch : ℕ
    pub used_key : List ℕ
    pub merkle_branch : List m.Hash
    pub blinded_sig : List ℕ

  pub record UnblindedSignature : Type 0 where
    pub epoch : ℕ
    pub used_key : List ℕ
    pub merkle_branch : List m.Hash
    pub unblinded_sig : List ℕ

  -- `none` where the code would panic.
  unfoldable pub blind_sign : SecretKey → ℕ → List ℕ → Option BlindedSignature
  blind_sign sk epoch blinded_token = elim (get_elem? sk.rsa_keys epoch) [
    | none ↦ none
    | some key_to_use ↦ elim (merkle_branch sk epoch) [
      | none ↦ none
      | some hs ↦ some (record {
        epoch = epoch;
        used_key = m.to_pkcs1_der (m.to_public_key key_to_use);
        merkle_branch = hs;
        blinded_sig = m.blind_sign key_to_use blinded_token;
      })
    ]
  ]

  -- `none` where the key does not parse, or the package refuses the signature.
  unfoldable pub unblind : BlindedSignature → m.Secret → List ℕ → Option UnblindedSignature
  unblind sig secret msg = elim (m.from_der sig.used_key) [
    | none ↦ none
    | some pk ↦ elim (m.finalize pk sig.blinded_sig secret msg) [
      | none ↦ none
      | some unblinded ↦ some (record {
        epoch = sig.epoch;
        used_key = sig.used_key;
        merkle_branch = sig.merkle_branch;
        unblinded_sig = unblinded;
      })
    ]
  ]

  unfoldable pub verify_signature : UnblindedSignature → List ℕ → Verdict
  verify_signature sig token = elim (m.from_der sig.used_key) [
    | none ↦ invalid
    | some pk ↦ if m.verify pk token sig.unblinded_sig then valid else invalid
  ]

  unfoldable pub blind_verify : m.Hash → List ℕ → UnblindedSignature → Verdict
  blind_verify key unblinded_token sig =
      elim (verify_member key sig.epoch sig.used_key sig.merkle_branch) [
        | valid ↦ verify_signature sig unblinded_token
        | invalid ↦ invalid
        | panicked ↦ panicked
      ]
