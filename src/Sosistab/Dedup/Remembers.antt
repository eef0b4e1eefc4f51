-- ===== src/Sosistab/Dedup/Remembers.antt =====
-- What the table of seen keys remembers, and how large it grows.
use geph.Base.{
  ℕ, ◌+◌, ◌-◌, ◌*◌, ◌≤◌, ◌<◌, ◌≡◌, ◌≢◌, ◌∙◌, true, List, [], ◌∷◌, Option, some, length, arith, All,
  inl, inr, ◌⊎◌,
}
use geph.Sosistab.Dedup.{Dedup, is_fresh, retain_fresh, bucket_insert, lookup, insert, contains}

module _ {K : Type 0} (dec : Discrete K) where
  lookup-retain_fresh :
      (expiry now t : ℕ) (k : K) (es : List (K × ℕ))
      → lookup dec k es ≡ some t
      → is_fresh expiry now t ≡ true
      → lookup dec k (retain_fresh expiry now es) ≡ some t
  unfolding lookup retain_fresh
  lookup-retain_fresh expiry now t k [] h f = absurd (cc)
  lookup-retain_fresh expiry now t k ((j, v) ∷ es) h f =
      ground (arith, lookup-retain_fresh expiry now t k es)

  lookup-bucket_insert_self :
      (k : K) (now : ℕ) (es : List (K × ℕ)) → lookup dec k (bucket_insert dec k now es) ≡ some now
  unfolding lookup bucket_insert
  lookup-bucket_insert_self k now [] = ground arith
  lookup-bucket_insert_self k now ((j, v) ∷ es) = ground (arith, lookup-bucket_insert_self k now es)

  lookup-bucket_insert_ne :
      (k j : K) (now : ℕ) (es : List (K × ℕ))
      → k ≢ j
      → lookup dec j (bucket_insert dec k now es) ≡ lookup dec j es
  unfolding lookup bucket_insert
  lookup-bucket_insert_ne k j now [] n = ground arith
  lookup-bucket_insert_ne k j now ((i, v) ∷ es) n =
      ground (arith, lookup-bucket_insert_ne k j now es)

  -- The time with which a key stands in the table.
  abbrev pub since : Dedup K → K → Option ℕ
  since d k = lookup dec k d.bucket

  insert_keeps :
      (d : Dedup K) (k j : K) (now t : ℕ)
      → lookup dec j (bucket_insert dec k now d.bucket) ≡ some t
      → is_fresh d.expiry now t ≡ true
      → since (insert dec d k now) j ≡ some t
  unfolding insert
  insert_keeps d k j now t h f =
      ground (arith, lookup-retain_fresh d.expiry now t j (bucket_insert dec k now d.bucket) h f)

  expiry-insert : (d : Dedup K) (k : K) (now : ℕ) → (insert dec d k now).expiry ≡ d.expiry
  unfolding insert
  expiry-insert d k now = ground arith

  insert_self :
      (d : Dedup K) (k : K) (now : ℕ) → 0 < d.expiry → since (insert dec d k now) k ≡ some now
  insert_self d k now h =
      insert_keeps d k k now now (lookup-bucket_insert_self k now d.bucket) (ground arith)

  insert_since :
      (d : Dedup K) (k j : K) (now t : ℕ)
      → since d j ≡ some t
      → now - t < d.expiry
      → (since (insert dec d k now) j ≡ some t) ⊎ (since (insert dec d k now) j ≡ some now)
  insert_since d k j now t h f = elim (dec k j) [
    | yes e ↦ inr (rw (← e) (insert_self d k now (omega arith)))
    | no n ↦
        inl
          (insert_keeps d k j now t (lookup-bucket_insert_ne k j now d.bucket n ∙ h) (ground arith))
  ]

  -- Insertions in turn, each with its time.
  unfoldable pub inserts : Dedup K → List (K × ℕ) → Dedup K
  inserts d [] = d
  inserts d ((k, now) ∷ later) = inserts (insert dec d k now) later

  remembers_from :
      (d : Dedup K) (j : K) (start t expiry : ℕ) (later : List (K × ℕ))
      → since d j ≡ some t
      → start ≤ t
      → d.expiry ≡ expiry
      → All (λ (e : K × ℕ). (start ≤ e.1) × (e.1 < start + expiry)) later
      → contains dec (inserts d later) j ≡ true
  unfolding inserts contains
  remembers_from d j start t expiry [] h s x a = rw (inserts, h, contains)
  remembers_from d j start t expiry ((k, now) ∷ later) h s x a =
      elim (insert_since d k j now t h (omega arith)) [
        | inl e ↦
            remembers_from (insert dec d k now) j start t expiry later e s
              (expiry-insert d k now ∙ x) a.1
        | inr e ↦
            remembers_from (insert dec d k now) j start now expiry later e (omega arith)
              (expiry-insert d k now ∙ x) a.1
      ]

  -- With an expiry that is not 0, a key is still there after any number of insertions that come
  -- before the expiry has passed since its own, whatever their keys, and however often the table
  -- cleans up.
  pub contains-inserts :
      (d : Dedup K) (j : K) (start : ℕ) (later : List (K × ℕ))
      → 0 < d.expiry
      → All (λ (e : K × ℕ). (start ≤ e.1) × (e.1 < start + d.expiry)) later
      → contains dec (inserts (insert dec d j start) later) j ≡ true
  contains-inserts d j start later h a =
      remembers_from (insert dec d j start) j start start d.expiry later (insert_self d j start h)
        (omega arith) (expiry-insert d j start) a

  -- After any insertion the table holds at most twice as many keys as the last cleanup kept (at
  -- most two before the first cleanup of a new table).
  pub length-insert :
      (d : Dedup K) (k : K) (now : ℕ)
      → length (insert dec d k now).bucket ≤ (insert dec d k now).last_size * 2
  unfolding insert
  length-insert d k now = ground arith
