-- ===== src/Base/Bytes.antt =====
-- Integers of a fixed number of bytes: `to_le_bytes`, `to_be_bytes` and their inverses.
use Prim.Native.Nat.{ℕ, zero, suc, ◌+◌, ◌*◌, ◌/◌, ◌%◌, ◌^◌, ◌<◌, ◌≤◌}
use mathlib.Core.Path.{◌≡◌, refl, sym, ap, ap₂, ◌∙◌}
use mathlib.Core.List.{List, [], ◌∷◌, ◌++◌, reverse, reverse-reverse, reverse-cons}
use native.Mathlib.Omega.{arith}
use native.Mathlib.Nat.{pow-suc}
use mathlib.Core.Option.{Option, none, some}
use mathlib.Core.Bool.{Bool, true, false, ◌&&◌}
use mathlib.Core.Logic.{inl, inr}
use geph.Base.Tests.{leb, if◌then◌else◌, le→leb, leb→le, ◌==◌, ==_refl, ==→eq, Bool-cases}
use geph.Base.Lists.{
  length, length-append, All, take, drop, take-append, drop-append, length-drop, take-append-drop,
}

abbrev pub to_le_bytes : ℕ → ℕ → List ℕ
to_le_bytes zero n = []
to_le_bytes (suc w) n = (n % 256) ∷ to_le_bytes w (n / 256)

abbrev pub from_le_bytes : List ℕ → ℕ
from_le_bytes [] = 0
from_le_bytes (b ∷ bs) = b + 256 * from_le_bytes bs

-- Every element is a byte.
abbrev pub AreBytes : List ℕ → Type 0
AreBytes = All (λ b. b < 256)

abbrev pub to_be_bytes : ℕ → ℕ → List ℕ
to_be_bytes w n = reverse (to_le_bytes w n)

abbrev pub from_be_bytes : List ℕ → ℕ
from_be_bytes bs = from_le_bytes (reverse bs)

pub length-to_le_bytes : (w n : ℕ) → length (to_le_bytes w n) ≡ w
length-to_le_bytes zero n = refl
length-to_le_bytes (suc w) n = ap suc (length-to_le_bytes w (n / 256))

pub from-to_le_bytes : (w n : ℕ) → n < 256 ^ w → from_le_bytes (to_le_bytes w n) ≡ n
from-to_le_bytes zero n h = omega arith
from-to_le_bytes (suc w) n h =
    let k : n < 256 ^ w * 256 = rw (← pow-suc 256 w) h in
    let q : n / 256 < 256 ^ w = omega arith in omega (arith, from-to_le_bytes w (n / 256) q)

pub length-reverse {ℓ} : {A : Type ℓ} (xs : List A) → length (reverse xs) ≡ length xs
length-reverse [] = refl
length-reverse (x ∷ xs) =
    omega
      (arith, ap length (reverse-cons x xs), length-append (reverse xs) (x ∷ []), length-reverse xs)

pub length-to_be_bytes : (w n : ℕ) → length (to_be_bytes w n) ≡ w
length-to_be_bytes w n = length-reverse (to_le_bytes w n) ∙ length-to_le_bytes w n

pub from-to_be_bytes : (w n : ℕ) → n < 256 ^ w → from_be_bytes (to_be_bytes w n) ≡ n
from-to_be_bytes w n h = rw reverse-reverse (from-to_le_bytes w n h)

pub AreBytes-to_le_bytes : (w n : ℕ) → AreBytes (to_le_bytes w n)
AreBytes-to_le_bytes zero n = tt
AreBytes-to_le_bytes (suc w) n = (omega arith, AreBytes-to_le_bytes w (n / 256))

-- `read_exact` of `n` bytes from a reader that delivers the list and then ends: the bytes and what
-- is left, or `none` for the error that the stream ended early.
unfoldable pub read_exact : ℕ → List ℕ → Option (List ℕ × List ℕ)
read_exact n bs = if leb n (length bs) then some (take n bs, drop n bs) else none

pub read_exact_le :
    (n : ℕ) (bs : List ℕ) → n ≤ length bs → read_exact n bs ≡ some (take n bs, drop n bs)
unfolding read_exact
read_exact_le n bs h = rw (le→leb n (length bs) h)

pub read_exact_short : (n : ℕ) (bs : List ℕ) → length bs < n → read_exact n bs ≡ none
unfolding read_exact
read_exact_short n bs h = ground arith

pub read_exact-append :
    (n : ℕ) (xs ys : List ℕ) → n ≡ length xs → read_exact n (xs ++ ys) ≡ some (xs, ys)
read_exact-append n xs ys h = rw (
  read_exact_le n (xs ++ ys) (omega (arith, length-append xs ys)),
  take-append n xs ys h,
  drop-append n xs ys h,
)

-- `==` on byte strings.
unfoldable pub bytes_eq : List ℕ → List ℕ → Bool
bytes_eq [] [] = true
bytes_eq [] (y ∷ ys) = false
bytes_eq (x ∷ xs) [] = false
bytes_eq (x ∷ xs) (y ∷ ys) = (x == y) && bytes_eq xs ys

pub bytes_eq_refl : (xs : List ℕ) → bytes_eq xs xs ≡ true
unfolding bytes_eq
bytes_eq_refl [] = refl
bytes_eq_refl (x ∷ xs) = rw (==_refl x) (bytes_eq_refl xs)

pub bytes_eq→eq : (xs ys : List ℕ) → bytes_eq xs ys ≡ true → xs ≡ ys
unfolding bytes_eq
bytes_eq→eq [] [] h = refl
bytes_eq→eq [] (y ∷ ys) h = absurd (cc)
bytes_eq→eq (x ∷ xs) [] h = absurd (cc)
bytes_eq→eq (x ∷ xs) (y ∷ ys) h = elim (Bool-cases (x == y)) [
  | inl e ↦
      let tails : bytes_eq xs ys ≡ true = ground arith in
      ap₂ ◌∷◌ (==→eq x y e) (bytes_eq→eq xs ys tails)
  | inr e ↦ absurd (ground arith)
]

pub read_exact-some :
    (n : ℕ) (bs xs ys : List ℕ)
    → read_exact n bs ≡ some (xs, ys)
    → (bs ≡ xs ++ ys) × (n + length ys ≡ length bs)
unfolding read_exact
read_exact-some n bs xs ys h = elim (Bool-cases (leb n (length bs))) [
  | inl e ↦
      let p : ◌≡◌ {A = Option (List ℕ × List ℕ)} (some (take n bs, drop n bs)) (some (xs, ys)) =
        sym (read_exact_le n bs (leb→le n (length bs) e)) ∙ h in
      let q : xs ≡ take n bs = cc in
      let r : ys ≡ drop n bs = cc in
      (
        sym (ap₂ ◌++◌ q r ∙ take-append-drop n bs),
        omega (arith, ap length r, length-drop n bs, leb→le n (length bs) e),
      )
  | inr e ↦ absurd (ground arith)
]
