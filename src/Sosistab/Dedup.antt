-- ===== src/Sosistab/Dedup.antt =====
-- libraries/sillad-sosistab3/src/dedup.rs: a set of keys that forgets those older than its expiry.
-- The `HashMap` is a list of keys, each once, with the time that it was inserted; times are numbers
-- of one clock, and `elapsed` does not go below 0.
pub mod Remembers
use geph.Base.{
  ℕ, suc, ◌+◌, ◌-◌, ◌*◌, ◌<◌, Bool, true, false, List, [], ◌∷◌, Option, none, some, length, ltb,
  if◌then◌else◌,
}

pub record Dedup (K : Type 0) : Type 0 where
  pub bucket : List (K × ℕ)
  pub last_size : ℕ
  pub expiry : ℕ

-- `v.elapsed() < self.expiry`
abbrev pub is_fresh : ℕ → ℕ → ℕ → Bool
is_fresh expiry now v = ltb (now - v) expiry

module _ {K : Type 0} where
  unfoldable pub new : ℕ → Dedup K
  new expiry = record { bucket = []; last_size = 1; expiry = expiry }

  -- `HashMap::retain` by the time of the entry.
  unfoldable pub retain_fresh : ℕ → ℕ → List (K × ℕ) → List (K × ℕ)
  retain_fresh expiry now [] = []
  retain_fresh expiry now ((k, v) ∷ es) =
      let rest = retain_fresh expiry now es in if is_fresh expiry now v then (k, v) ∷ rest else rest

  unfoldable pub cleanup : Dedup K → ℕ → Dedup K
  cleanup d now =
      let kept = retain_fresh d.expiry now d.bucket in
      record d { bucket = kept; last_size = length kept }

module _ {K : Type 0} (dec : Discrete K) where
  -- `HashMap::insert`: a key that is there keeps its place and gets the new time.
  unfoldable pub bucket_insert : K → ℕ → List (K × ℕ) → List (K × ℕ)
  bucket_insert k now [] = (k, now) ∷ []
  bucket_insert k now ((j, v) ∷ es) =
      let rest = bucket_insert k now es in
      elim (dec j k) [ yes e ↦ (k, now) ∷ es | no n ↦ (j, v) ∷ rest ]

  unfoldable pub lookup : K → List (K × ℕ) → Option ℕ
  lookup k [] = none
  lookup k ((j, v) ∷ es) = let rest = lookup k es in elim (dec j k) [ yes e ↦ some v | no n ↦ rest ]

  unfoldable pub insert : Dedup K → K → ℕ → Dedup K
  unfolding cleanup
  insert d key now =
      let d' = record d { bucket = bucket_insert key now d.bucket } in
      if ltb (d.last_size * 2) (length d'.bucket) then cleanup d' now else d'

  unfoldable pub contains : Dedup K → K → Bool
  contains d key = elim (lookup key d.bucket) [ none ↦ false | some v ↦ true ]
