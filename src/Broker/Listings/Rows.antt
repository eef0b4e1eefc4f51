-- ===== src/Broker/Listings/Rows.antt =====
-- What an announcement changes, and how long it lasts.
use geph.Base.{
  ℕ, ◌+◌, ◌≤◌, ◌≡◌, refl, sym, ap, ◌∙◌, true, false, List, [], ◌∷◌, some, ltb, if◌then◌else◌, arith,
  Bool-cases, inl, inr, ◌⊎◌, subst,
}
use geph.Base.Bytes.{bytes_eq, bytes_eq_refl, bytes_eq→eq}
use geph.Broker.Envelope.{
  Packages, Mac, Signed, Opened, opened, rejected, VerifyError, mac_verify, signed_verify, to_sign,
  hash_discrete,
}
use geph.Broker.Listings.{
  Announced, Rows, row_of, upsert, inserted, not_genuine, stale, store, insert_signed, insert_exit,
}

Opened-cases :
    {T : Type 0} (o : Opened T)
    → ((x : VerifyError) × (o ≡ rejected x)) ⊎ ((t : T) × (o ≡ opened t))
Opened-cases (rejected x) = inl (x, refl)
Opened-cases (opened t) = inr (t, refl)

-- Two keys that agree with a third agree.
pub bytes_eq_join :
    (i j k : List ℕ) → bytes_eq i j ≡ true → bytes_eq k j ≡ true → bytes_eq i k ≡ true
bytes_eq_join i j k e f =
    ap (λ z. bytes_eq i z) (bytes_eq→eq k j f ∙ sym (bytes_eq→eq i j e)) ∙ bytes_eq_refl i

pub row_of-upsert :
    (j k : List ℕ) (v : Announced) (rows : Rows)
    → row_of j (upsert k v rows) ≡ (if bytes_eq k j then some v else row_of j rows)
unfolding row_of upsert
row_of-upsert j k v [] = refl
row_of-upsert j k v ((i, a) ∷ rows) = elim (Bool-cases (bytes_eq i k)) [
  | inl e ↦
      let same : bytes_eq i j ≡ bytes_eq k j = ap (λ z. bytes_eq z j) (bytes_eq→eq i k e) in
      rw (e, same) (ground arith)
  | inr e ↦ elim (Bool-cases (bytes_eq i j)) [
    | inr f ↦ rw (e, f) (row_of-upsert j k v rows)
    | inl f ↦ elim (Bool-cases (bytes_eq k j)) [
      | inl g ↦ let joined : true ≡ false = sym (bytes_eq_join i j k f g) ∙ e in absurd (cc)
      | inr g ↦ rw (e, f, g) refl
    ]
  ]
]

module _ {T : Type 0} (p : Packages T) where
  mac_verify-opened :
      (m : Mac T) (secret : List ℕ) (t : T)
      → mac_verify p m secret ≡ opened t
      → (m.khash ≡ p.keyed_hash secret (p.stdcode m.inner)) × (m.inner ≡ t)
  unfolding mac_verify
  mac_verify-opened m secret t e =
      elim (hash_discrete m.khash (p.keyed_hash secret (p.stdcode m.inner))) [
        | yes same ↦ (same, ground arith)
        | no n ↦ absurd (ground arith)
      ]

  signed_verify-opened :
      (s : Signed T) (domain : List ℕ) (t : T)
      → signed_verify p s domain (λ _. true) ≡ opened t
      → (p.verify_strict s.pubkey (to_sign p s.inner domain) s.signature ≡ true) × (s.inner ≡ t)
  unfolding signed_verify
  signed_verify-opened s domain t e =
      elim (Bool-cases (p.verify_strict s.pubkey (to_sign p s.inner domain) s.signature)) [
        | inl v ↦ (v, ground arith)
        | inr v ↦ absurd (ground arith)
      ]

module _ (outer : Packages (Signed Announced)) (inner : Packages Announced)
    (exit_token domain : List ℕ) where
  -- What stands behind an announcement that has been taken.
  pub record IsGenuine (rows rows' : Rows) (now : ℕ) (m : Mac (Signed Announced)) : Type 0 where
    pub from_token_holder : m.khash ≡ outer.keyed_hash exit_token (outer.stdcode m.inner)
    pub from_key_holder :
        inner.verify_strict m.inner.pubkey (to_sign inner m.inner.inner domain) m.inner.signature
        ≡ true
    pub current : now ≤ m.inner.inner.expiry
    pub row : Announced
    pub row_is : row_of m.inner.pubkey rows' ≡ some row
    pub row_exit : row.exit ≡ m.inner.inner.exit
    pub row_expiry : row.expiry ≡ now + 10
    pub others : (j : List ℕ) → bytes_eq m.inner.pubkey j ≡ false → row_of j rows' ≡ row_of j rows

  store-inserted :
      (rows rows' : Rows) (now : ℕ) (pubkey : List ℕ) (a : Announced)
      → store outer inner exit_token domain rows now pubkey a ≡ inserted rows'
      → (now ≤ a.expiry) × (rows' ≡ upsert pubkey (record a { expiry = now + 10 }) rows)
  unfolding store
  store-inserted rows rows' now pubkey a e = elim (Bool-cases (ltb a.expiry now)) [
    | inl t ↦ absurd (ground arith)
    | inr t ↦
        let p : inserted (upsert pubkey (record a { expiry = now + 10 }) rows) ≡ inserted rows' =
          sym (
            ap
              (λ b.
                if b then stale else inserted (upsert pubkey (record a { expiry = now + 10 }) rows))
              t)
          ∙ e in
        (ground arith, cc)
  ]

  insert_signed-inserted :
      (rows rows' : Rows) (now : ℕ) (s : Signed Announced)
      → insert_signed outer inner exit_token domain rows now s ≡ inserted rows'
      → (inner.verify_strict s.pubkey (to_sign inner s.inner domain) s.signature ≡ true)
        × (now ≤ s.inner.expiry)
        × (rows' ≡ upsert s.pubkey (record s.inner { expiry = now + 10 }) rows)
  unfolding insert_signed
  insert_signed-inserted rows rows' now s e =
      elim (Opened-cases (signed_verify inner s domain (λ _. true))) [
        | inl (x, v) ↦
            let k : not_genuine x ≡ inserted rows' = sym (rw (v, insert_signed) refl) ∙ e in
            absurd (cc)
        | inr (d, v) ↦
            let (signed, same) = signed_verify-opened inner s domain d v in
            let (now_le, rows_are) =
              store-inserted rows rows' now s.pubkey d (sym (rw (v, insert_signed) refl) ∙ e) in
            (
              signed,
              subst (λ (z : Announced). now ≤ z.expiry) (sym same) now_le,
              rows_are
                  ∙ ap (λ (z : Announced). upsert s.pubkey (record z { expiry = now + 10 }) rows)
                      (sym same),
            )
      ]

  -- An announcement of an exit is taken, whoever sends it, only if its hash was made under the exits'
  -- token and its signature verifies under its public key, and if it has not expired. The table then
  -- has for that key the exit as announced, until ten seconds from now whatever the announcement says,
  -- and for every other key what it had.
  pub insert_exit-IsGenuine :
      (rows rows' : Rows) (now : ℕ) (m : Mac (Signed Announced))
      → insert_exit outer inner exit_token domain rows now m ≡ inserted rows'
      → IsGenuine rows rows' now m
  unfolding insert_exit
  insert_exit-IsGenuine rows rows' now m e = elim (Opened-cases (mac_verify outer m exit_token)) [
    | inl (x, v) ↦
        let k : not_genuine x ≡ inserted rows' = sym (rw (v, insert_exit) refl) ∙ e in absurd (cc)
    | inr (s, v) ↦
        let (hash, same) = mac_verify-opened outer m exit_token s v in
        let k : insert_signed outer inner exit_token domain rows now m.inner ≡ inserted rows' =
          ap (insert_signed outer inner exit_token domain rows now) same
          ∙ sym (rw (v, insert_exit) refl)
          ∙ e in
        let (signed, current, rows_are) = insert_signed-inserted rows rows' now m.inner k in
        let listed : Announced = record m.inner.inner { expiry = now + 10 } in
        record {
          from_token_holder = hash;
          from_key_holder = signed;
          current = current;
          row = listed;
          row_is =
              ap (row_of m.inner.pubkey) rows_are
              ∙ row_of-upsert m.inner.pubkey m.inner.pubkey listed rows
              ∙ ap (λ b. if b then some listed else row_of m.inner.pubkey rows)
                  (bytes_eq_refl m.inner.pubkey);
          row_exit = refl;
          row_expiry = refl;
          others = λ j n.
              ap (row_of j) rows_are
              ∙ row_of-upsert j m.inner.pubkey listed rows
              ∙ ap (λ b. if b then some listed else row_of j rows) n;
        }
  ]
