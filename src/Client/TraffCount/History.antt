-- ===== src/Client/TraffCount/History.antt =====
-- The history of traffic stays short, and it keeps count of what it is told.
use geph.Base.{
  ℕ, zero, suc, ◌+◌, ◌-◌, ◌*◌, ◌/◌, ◌≤◌, ◌<◌, ◌≡◌, refl, ap, subst, max, List, [], ◌∷◌, ◌++◌,
  length, length-append, leb, ◌==◌, arith, true, false, Bool-cases, inl, inr, ◌⊎◌,
}
use geph.Client.TraffCount.{TraffCount, add_bin, add_bins, ensure_bins_updated, add_to_last, incr}

abbrev pub sum : List ℕ → ℕ
sum [] = 0
sum (b ∷ bins) = b + sum bins

sum-append : (xs ys : List ℕ) → sum (xs ++ ys) ≡ sum xs + sum ys
sum-append [] ys = omega arith
sum-append (x ∷ xs) ys = omega (arith, sum-append xs ys)

unfoldable pub IsShort : TraffCount → Type 0
IsShort c = length c.bins ≤ max 1 c.max_history_seconds

length-add_bin : (m : ℕ) (bins : List ℕ) → length bins ≤ max 1 m → length (add_bin m bins) ≤ max 1 m
unfolding add_bin
length-add_bin m [] h = ground arith
length-add_bin m (b ∷ bins) h = elim (Bool-cases (leb m (length (b ∷ bins)))) [
  | inl e ↦ rw e (omega (arith, length-append bins (0 ∷ [])))
  | inr e ↦ rw e (omega (arith, length-append bins (0 ∷ []), small e))
]
  where
    small : leb m (length (b ∷ bins)) ≡ false → length (b ∷ bins) < m
    small e = ground arith

sum-add_bin : (m : ℕ) (bins : List ℕ) → sum (add_bin m bins) ≤ sum bins
unfolding add_bin
sum-add_bin m [] = ground arith
sum-add_bin m (b ∷ bins) = elim (Bool-cases (leb m (length (b ∷ bins)))) [
  | inl e ↦ rw e (omega (arith, sum-append bins (0 ∷ [])))
  | inr e ↦ rw e (omega (arith, sum-append bins (0 ∷ [])))
]

length-add_bins :
    (n m : ℕ) (bins : List ℕ) → length bins ≤ max 1 m → length (add_bins n m bins) ≤ max 1 m
unfolding add_bins
length-add_bins zero m bins h = h
length-add_bins (suc n) m bins h = length-add_bins n m (add_bin m bins) (length-add_bin m bins h)

sum-add_bins : (n m : ℕ) (bins : List ℕ) → sum (add_bins n m bins) ≤ sum bins
unfolding add_bins
sum-add_bins zero m bins = omega arith
sum-add_bins (suc n) m bins = omega (arith, sum-add_bins n m (add_bin m bins), sum-add_bin m bins)

add_bin_cons : (m : ℕ) (bins : List ℕ) → (b : ℕ) × (rest : List ℕ) × (add_bin m bins ≡ b ∷ rest)
unfolding add_bin
add_bin_cons m bins = cons_of _
  where
    cons_of : (xs : List ℕ) → (b : ℕ) × (rest : List ℕ) × (xs ++ (0 ∷ []) ≡ b ∷ rest)
    cons_of [] = (0, [], refl)
    cons_of (x ∷ xs) = (x, xs ++ (0 ∷ []), refl)

add_bins_cons :
    (n m b : ℕ) (bins : List ℕ) → (b' : ℕ) × (rest : List ℕ) × (add_bins n m (b ∷ bins) ≡ b' ∷ rest)
unfolding add_bins
add_bins_cons zero m b bins = (b, bins, refl)
add_bins_cons (suc n) m b bins =
    let (b', rest, e) = add_bin_cons m (b ∷ bins) in rw e (add_bins_cons n m b' rest)

-- The bins after an update: some bin, as many as there may be, and no more traffic than before.
record Updated (c c' : TraffCount) : Type 0 where
  filled : (b : ℕ) × (rest : List ℕ) × (c'.bins ≡ b ∷ rest)
  short : IsShort c → IsShort c'
  less : sum c'.bins ≤ sum c.bins

bins_cases : (xs : List ℕ) → (xs ≡ []) ⊎ ((b : ℕ) × (rest : List ℕ) × (xs ≡ b ∷ rest))
bins_cases [] = inl refl
bins_cases (b ∷ rest) = inr (b, rest, refl)

ensure_first :
    (c : TraffCount) (now : ℕ)
    → c.bins ≡ []
    → ensure_bins_updated c now ≡ record c { bins = 0 ∷ [] }
unfolding ensure_bins_updated
ensure_first c now e = rw (e, ensure_bins_updated)

ensure_same :
    (c : TraffCount) (now b : ℕ) (bins : List ℕ)
    → c.bins ≡ b ∷ bins
    → ((now - c.window_start) / 1000 == 0) ≡ true
    → ensure_bins_updated c now ≡ c
unfolding ensure_bins_updated
ensure_same c now b bins e f = rw (e, f, ensure_bins_updated) (λ i. record c { bins = e i })

ensure_later :
    (c : TraffCount) (now b : ℕ) (bins : List ℕ)
    → c.bins ≡ b ∷ bins
    → ((now - c.window_start) / 1000 == 0) ≡ false
    → (ensure_bins_updated c now) ≡ record c {
      bins = add_bins ((now - c.window_start) / 1000) c.max_history_seconds (b ∷ bins);
      window_start = c.window_start + (now - c.window_start) / 1000 * 1000;
    }
unfolding ensure_bins_updated
ensure_later c now b bins e f = rw (e, f, ensure_bins_updated)

ensure-Updated : (c : TraffCount) (now : ℕ) → Updated c (ensure_bins_updated c now)
unfolding IsShort
ensure-Updated c now = elim (bins_cases c.bins) [
  | inl e ↦
      rw (ensure_first c now e)
        (record { filled = (0, [], refl); short = λ h. omega arith; less = omega arith })
  | inr (b, bins, e) ↦ elim (Bool-cases ((now - c.window_start) / 1000 == 0)) [
    | inl f ↦
        rw (ensure_same c now b bins e f)
          (record { filled = (b, bins, e); short = λ h. h; less = omega arith })
    | inr f ↦
        let k : ℕ = (now - c.window_start) / 1000 in
        rw (ensure_later c now b bins e f) (record {
          filled = add_bins_cons k c.max_history_seconds b bins;
          short = λ h.
              length-add_bins k c.max_history_seconds (b ∷ bins)
                (subst (λ z. length z ≤ max 1 c.max_history_seconds) e h);
          less = rw e (sum-add_bins k c.max_history_seconds (b ∷ bins));
        })
  ]
]

length-add_to_last :
    (n b : ℕ) (bins : List ℕ) → length (add_to_last n (b ∷ bins)) ≡ length (b ∷ bins)
unfolding add_to_last
length-add_to_last n b [] = refl
length-add_to_last n b (b' ∷ bins) = ap suc (length-add_to_last n b' bins)

sum-add_to_last : (n b : ℕ) (bins : List ℕ) → sum (add_to_last n (b ∷ bins)) ≡ sum (b ∷ bins) + n
unfolding add_to_last
sum-add_to_last n b [] = omega arith
sum-add_to_last n b (b' ∷ bins) = omega (arith, sum-add_to_last n b' bins)

max-ensure :
    (c : TraffCount) (now : ℕ)
    → (ensure_bins_updated c now).max_history_seconds ≡ c.max_history_seconds
max-ensure c now = elim (bins_cases c.bins) [
  | inl e ↦ rw (ensure_first c now e)
  | inr (b, bins, e) ↦ elim (Bool-cases ((now - c.window_start) / 1000 == 0)) [
    | inl f ↦ rw (ensure_same c now b bins e f)
    | inr f ↦ rw (ensure_later c now b bins e f)
  ]
]

-- A history that is no longer than its limit (or one bin, where the limit is none) stays so, whatever
-- the time that has passed, and holds after an increment at least those bytes, and at most those and
-- what it held before.
pub incr-IsShort :
    (c : TraffCount) (n now : ℕ)
    → IsShort c
    → IsShort (incr c n now)
      × (n ≤ sum (incr c n now).bins)
      × (sum (incr c n now).bins ≤ sum c.bins + n)
unfolding incr IsShort
incr-IsShort c n now h =
    let u = ensure-Updated c now in
    let (b, rest, e) = u.filled in
    let max_same = max-ensure c now in
    rw (e, max_same)
      (
        omega (arith, length-add_to_last n b rest, ap length e, u.short h, max_same),
        omega (arith, sum-add_to_last n b rest),
        omega (arith, sum-add_to_last n b rest, ap sum e, u.less),
      )

abbrev pub last : List ℕ → ℕ
last [] = 0
last (b ∷ []) = b
last (b ∷ b' ∷ bins) = last (b' ∷ bins)
