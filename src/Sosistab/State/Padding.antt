-- ===== src/Sosistab/State/Padding.antt =====
-- The padding of a short hunk: `encrypt` never panics, and what it sends is the data and, behind it,
-- at most one hunk of padding.
use geph.Base.{
  ℕ, zero, suc, ◌+◌, ◌-◌, ◌*◌, ◌^◌, ◌≤◌, ◌<◌, ◌≡◌, ap, ◌∙◌, true, false, ◌&&◌, List, ◌++◌, some,
  length, take, replicate, length-replicate, take-replicate, arith, ltb, ◌==◌, if◌then◌else◌,
  Bool-cases, inl, inr, dec_le, append_assoc,
}
use native.Mathlib.Nat.{pow-suc}
use geph.Sosistab.Crypto.{Crypto}
use geph.Sosistab.State.{
  State, hunk, sealed, encrypt, encrypt_inner, pad, power_from, next_power_of_two, max_padding,
  lala,
}
use geph.Sosistab.State.Parts.{length-hunk}

-- Doubling reaches `n`, and stops at or below any bound of its form.
power_from-ge : (fuel p n : ℕ) → n ≤ p * 2 ^ fuel → n ≤ power_from fuel p n
unfolding power_from
power_from-ge zero p n h = omega arith
power_from-ge (suc fuel) p n h =
    let k : n ≤ 2 * p * 2 ^ fuel = grind (arith, pow-suc 2 fuel) in
    ground (arith, power_from-ge fuel (2 * p) n k)

double : (p k : ℕ) → p * 2 ^ suc k ≡ 2 * p * 2 ^ k
double p k = grind (arith, pow-suc 2 k)

pow_pos : (k : ℕ) → 1 ≤ 2 ^ k
pow_pos zero = omega arith
pow_pos (suc k) = omega (arith, pow-suc 2 k, pow_pos k)

le-double : (p k : ℕ) → p ≤ p * 2 ^ suc k
le-double p k = grind (arith, pow_pos (suc k))

power_from-le : (fuel k p n : ℕ) → n ≤ p * 2 ^ k → k ≤ fuel → power_from fuel p n ≤ p * 2 ^ k
unfolding power_from
power_from-le zero zero p n h l = omega arith
power_from-le zero (suc k) p n h l = absurd (omega arith)
power_from-le (suc fuel) zero p n h l = ground arith
power_from-le (suc fuel) (suc k) p n h l =
    let e : p * 2 ^ suc k ≡ 2 * p * 2 ^ k = double p k in
    ground (arith, le-double p k, power_from-le fuel k (2 * p) n (rw (← e) h))

-- The power of two that a short hunk is padded to is at most 2048, and at most 1024 for half that.
next_power_bounds :
    (n : ℕ)
    → n ≤ 2048
    → (n ≤ next_power_of_two n)
      × (next_power_of_two n ≤ 2048)
      × (n ≤ 1024 → next_power_of_two n ≤ 1024)
unfolding next_power_of_two
next_power_bounds n h = (
  power_from-ge 64 1 n (omega arith),
  power_from-le 64 11 1 n (omega arith) (omega arith),
  λ q. power_from-le 64 10 1 n (omega arith) (omega arith),
)

take-lala : (k : ℕ) → k ≤ max_padding → take k lala ≡ replicate k 0
unfolding lala
take-lala k h = take-replicate k max_padding 0 h

-- The number of padding bytes for a hunk of `n` bytes and a draw.
abbrev pub padding_size : ℕ → ℕ → ℕ
padding_size n random = next_power_of_two (n + 36) + random - n - 36

padding_size-le :
    (n random : ℕ)
    → n < 2000
    → random < 10
    → (padding_size n random ≤ max_padding)
      × (n + 36 + padding_size n random ≡ next_power_of_two (n + 36) + random)
padding_size-le n random h r =
    let (lo, hi, half) = next_power_bounds (n + 36) (omega arith) in
    elim (dec_le (n + 36) 1024) [
      | yes q ↦ (omega (arith, half q), omega arith)
      | no q ↦ (omega arith, omega arith)
    ]

module _ (c : Crypto) where
  pad_total :
      (s : State) (output : List ℕ) (n random : ℕ)
      → n < 2000
      → random < 10
      → let zeroes : List ℕ = replicate (padding_size n random) 0 in
        pad c s output n 36 random ≡ some (output ++ hunk c s zeroes true, sealed c s zeroes)
  unfolding pad encrypt_inner
  pad_total s output n random h r =
      let (fits, total) = padding_size-le n random h r in
      rw (
        take-lala (padding_size n random) fits,
        enough total,
        small fits,
        length-hunk c s (replicate (padding_size n random) 0) true,
        length-replicate {A = ℕ} (padding_size n random) 0,
        counted total,
      )
    where
      enough :
          n + 36 + padding_size n random ≡ next_power_of_two (n + 36) + random
          → ltb (next_power_of_two (n + 36) + random) (n + 36) ≡ false
      enough e = ground arith

      small : padding_size n random ≤ max_padding → ltb max_padding (padding_size n random) ≡ false
      small e = ground arith

      counted :
          n + 36 + padding_size n random ≡ next_power_of_two (n + 36) + random
          → (n + (36 + padding_size n random) == next_power_of_two (n + 36) + random) ≡ true
      counted e = ground arith

  -- What one call of `encrypt` appends to its output: a hunk with the data, and behind it a hunk of
  -- padding when lengths are obfuscated and the hunk with the data is short.
  abbrev pub appended : State → List ℕ → ℕ → List ℕ
  appended s bts random =
      if s.obfs_params.obfs_lengths && ltb (36 + length bts) 2000
      then hunk c s bts false
        ++ hunk c (sealed c s bts) (replicate (padding_size (36 + length bts) random) 0) true
      else hunk c s bts false

  abbrev pub state_behind : State → List ℕ → ℕ → State
  state_behind s bts random =
      if s.obfs_params.obfs_lengths && ltb (36 + length bts) 2000
      then sealed c (sealed c s bts) (replicate (padding_size (36 + length bts) random) 0)
      else sealed c s bts

  -- Whatever the data, and whatever the draw from 0 to 9: `encrypt` runs into no panic (of a
  -- subtraction, of the slice of zeroes, or of its assertion), appends the hunk with the data, and
  -- behind it the hunk of padding where lengths are obfuscated and the hunk is shorter than 2000.
  pub encrypt_total :
      (s : State) (bts output : List ℕ) (random : ℕ)
      → random < 10
      → encrypt c s bts output random
        ≡ some (output ++ appended s bts random, state_behind s bts random)
  unfolding encrypt encrypt_inner
  encrypt_total s bts output random r =
      elim (Bool-cases (s.obfs_params.obfs_lengths && ltb (36 + length bts) 2000)) [
        | inl e ↦
            rw (length-hunk c s bts false, overhead, e)
              (pad_total (sealed c s bts) (output ++ hunk c s bts false) (36 + length bts) random
                  (short e) r
                ∙ ap (λ o. some (o, sealed c (sealed c s bts) zeroes)) (append_assoc output _ _))
        | inr e ↦ rw (length-hunk c s bts false, overhead, e)
      ]
    where
      zeroes : List ℕ
      zeroes = replicate (padding_size (36 + length bts) random) 0

      overhead : 36 + length bts - length bts ≡ 36
      overhead = omega arith

      short :
          (s.obfs_params.obfs_lengths && ltb (36 + length bts) 2000) ≡ true → 36 + length bts < 2000
      short e = ground arith
