-- ===== src/Broker/Listings/Lifetime.antt =====
-- The table of exits has one row for a key, and a deletion leaves what has not expired.
use geph.Base.{
  ℕ, ◌≡◌, refl, sym, ◌∙◌, Bool, true, false, List, [], ◌∷◌, Option, none, some, ltb, leb,
  if◌then◌else◌, subst, arith, Bool-cases, inl, inr, All,
}
use geph.Base.Bytes.{bytes_eq, bytes_eq_refl, bytes_eq→eq}
use geph.Broker.Listings.{Announced, Rows, row_of, upsert, collect_garbage}
use geph.Broker.Listings.Rows.{bytes_eq_join}

-- The column `pubkey` is a key.
unfoldable pub IsKeyed : Rows → Type 0
IsKeyed [] = Unit
IsKeyed ((k, a) ∷ rows) = All (λ r. bytes_eq k r.0 ≡ false) rows × IsKeyed rows

All-upsert :
    (i k : List ℕ) (v : Announced) (rows : Rows)
    → bytes_eq i k ≡ false
    → All (λ r. bytes_eq i r.0 ≡ false) rows
    → All (λ r. bytes_eq i r.0 ≡ false) (upsert k v rows)
unfolding upsert
All-upsert i k v [] n h = (n, tt)
All-upsert i k v ((j, a) ∷ rows) n h = elim (Bool-cases (bytes_eq j k)) [
  | inl e ↦ rw e (n, h.1)
  | inr e ↦ rw e (h.0, All-upsert i k v rows n h.1)
]

-- An announcement keeps the keys apart.
pub upsert-IsKeyed :
    (k : List ℕ) (v : Announced) (rows : Rows) → IsKeyed rows → IsKeyed (upsert k v rows)
unfolding upsert IsKeyed
upsert-IsKeyed k v [] h = (tt, tt)
upsert-IsKeyed k v ((j, a) ∷ rows) h = elim (Bool-cases (bytes_eq j k)) [
  | inl e ↦ rw e (subst (λ z. All (λ r. bytes_eq z r.0 ≡ false) rows) (bytes_eq→eq j k e) h.0, h.1)
  | inr e ↦ rw e (All-upsert j k v rows e h.0, upsert-IsKeyed k v rows h.1)
]

row_of-absent :
    (k : List ℕ) (now : ℕ) (rows : Rows)
    → All (λ r. bytes_eq k r.0 ≡ false) rows
    → row_of k (collect_garbage now rows) ≡ none
unfolding row_of collect_garbage
row_of-absent k now [] h = refl
row_of-absent k now ((j, a) ∷ rows) h =
    let differs : bytes_eq j k ≡ false = flipped (bytes_eq j k) refl in
    elim (Bool-cases (ltb a.expiry now)) [
      | inl e ↦ rw e (row_of-absent k now rows h.1)
      | inr e ↦ rw (e, differs) (row_of-absent k now rows h.1)
    ]
  where
    flipped : (b : Bool) → bytes_eq j k ≡ b → b ≡ false
    flipped false f = refl
    flipped true f =
        let back : bytes_eq k j ≡ true = bytes_eq_join k k j (bytes_eq_refl k) f in
        let clash : true ≡ false = sym back ∙ h.0 in absurd (cc)

-- What is left of a row, if there is one, after the rows that have expired are deleted.
unfoldable pub unless_expired : ℕ → Option Announced → Option Announced
unless_expired now none = none
unless_expired now (some a) = if ltb a.expiry now then none else some a

pub row_of-collect_garbage :
    (k : List ℕ) (now : ℕ) (rows : Rows)
    → IsKeyed rows
    → row_of k (collect_garbage now rows) ≡ unless_expired now (row_of k rows)
unfolding row_of collect_garbage IsKeyed unless_expired
row_of-collect_garbage k now [] h = refl
row_of-collect_garbage k now ((j, a) ∷ rows) h = elim (Bool-cases (ltb a.expiry now)) [
  | inl e ↦ elim (Bool-cases (bytes_eq j k)) [
    | inl f ↦
        rw (e, f, e)
          (row_of-absent k now rows
            (subst (λ z. All (λ r. bytes_eq z r.0 ≡ false) rows) (bytes_eq→eq j k f) h.0))
    | inr f ↦ rw (e, f) (row_of-collect_garbage k now rows h.1)
  ]
  | inr e ↦ elim (Bool-cases (bytes_eq j k)) [
    | inl f ↦ rw (e, f, e) refl
    | inr f ↦ rw (e, f) (row_of-collect_garbage k now rows h.1)
  ]
]

pub expiring :
    (now : ℕ) (v : Announced)
    → unless_expired now (some v) ≡ (if leb now v.expiry then some v else none)
unfolding unless_expired
expiring now v = ground arith

All-collect_garbage :
    (i : List ℕ) (now : ℕ) (rows : Rows)
    → All (λ r. bytes_eq i r.0 ≡ false) rows
    → All (λ r. bytes_eq i r.0 ≡ false) (collect_garbage now rows)
unfolding collect_garbage
All-collect_garbage i now [] h = tt
All-collect_garbage i now ((j, a) ∷ rows) h = elim (Bool-cases (ltb a.expiry now)) [
  | inl e ↦ rw e (All-collect_garbage i now rows h.1)
  | inr e ↦ rw e (h.0, All-collect_garbage i now rows h.1)
]

pub collect_garbage-IsKeyed :
    (now : ℕ) (rows : Rows) → IsKeyed rows → IsKeyed (collect_garbage now rows)
unfolding collect_garbage IsKeyed
collect_garbage-IsKeyed now [] h = tt
collect_garbage-IsKeyed now ((j, a) ∷ rows) h = elim (Bool-cases (ltb a.expiry now)) [
  | inl e ↦ rw e (collect_garbage-IsKeyed now rows h.1)
  | inr e ↦ rw e (All-collect_garbage j now rows h.0, collect_garbage-IsKeyed now rows h.1)
]
