-- ===== src/Exit/Ipv6Net.antt =====
-- binaries/geph5-exit/src/ipv6.rs: the address from which a session connects. An address is its 128 bits as
-- a number, and a network its first address and the length of its prefix.
use geph.Base.{
  ℕ, zero, suc, ◌+◌, ◌-◌, ◌*◌, ◌/◌, ◌^◌, ◌<◌, ◌≤◌, ◌≡◌, refl, sym, ap, ◌∙◌, Option, none, some, ltb,
  lt→ltb, ◌==◌, if◌then◌else◌, arith,
}
use native.Mathlib.Nat.{pow-suc, add-mul-div_right, div-eq_of_lt, mul-le-mul_right}

-- `none` where the code would panic: a shift by 128 bits, or a sum beyond 128 bits. `draw` is what the
-- generator gives, which is at most the bound that it is asked for.
unfoldable pub checked_shl : ℕ → Option ℕ
checked_shl host_bits = if ltb host_bits 128 then some (2 ^ host_bits) else none

unfoldable pub max_offset : ℕ → Option ℕ
max_offset host_bits =
    if host_bits == 0
    then some 0
    else (elim (checked_shl host_bits) [ none ↦ none | some n ↦ some (n - 1) ])

unfoldable pub random_offset : ℕ → (ℕ → ℕ) → ℕ
random_offset bound draw = if bound == 0 then 0 else draw bound

unfoldable pub checked_add : ℕ → ℕ → Option ℕ
checked_add a b = if ltb (a + b) (2 ^ 128) then some (a + b) else none

unfoldable pub random_ipv6_in_net : ℕ → ℕ → (ℕ → ℕ) → Option ℕ
random_ipv6_in_net network prefix_len draw = elim (max_offset (128 - prefix_len)) [
  | none ↦ none
  | some bound ↦ checked_add network (random_offset bound draw)
]

pow_add : (a b : ℕ) → 2 ^ (a + b) ≡ 2 ^ a * 2 ^ b
pow_add a zero = omega (arith, ap (λ n. 2 ^ n) (plus_zero a))
  where
    plus_zero : (n : ℕ) → n + 0 ≡ n
    plus_zero n = omega arith
pow_add a (suc b) =
    let shift : 2 ^ (a + suc b) ≡ 2 ^ suc (a + b) = ap (λ n. 2 ^ n) (plus_suc a b) in
    shift
    ∙ pow-suc 2 (a + b)
    ∙ omega (arith, ap (λ n. n * 2) (pow_add a b), ap (λ n. 2 ^ a * n) (pow-suc 2 b))
  where
    plus_suc : (n k : ℕ) → n + suc k ≡ suc (n + k)
    plus_suc n k = omega arith

pow_pos : (n : ℕ) → 0 < 2 ^ n
pow_pos zero = omega arith
pow_pos (suc n) = omega (arith, pow-suc 2 n, pow_pos n)

max_offset_lem : (h : ℕ) → h < 128 → max_offset h ≡ some (2 ^ h - 1)
unfolding max_offset checked_shl
max_offset_lem zero l = refl
max_offset_lem (suc h) l = rw (lt→ltb (suc h) 128 l) (ground arith)

random_offset-le :
    (bound : ℕ) (draw : ℕ → ℕ) → draw bound ≤ bound → random_offset bound draw ≤ bound
unfolding random_offset
random_offset-le bound draw l = ground arith

in_network :
    (bits size count offset : ℕ)
    → bits < count
    → offset < size
    → size * count ≡ 2 ^ 128
    → bits * size + offset < 2 ^ 128
in_network bits size count offset l o e =
    let rows : (bits + 1) * size ≤ count * size = mul-le-mul_right size (omega arith) in
    omega (arith, rows)

checked_add_lem : (a b : ℕ) → a + b < 2 ^ 128 → checked_add a b ≡ some (a + b)
unfolding checked_add
checked_add_lem a b l = rw (lt→ltb (a + b) (2 ^ 128) l) refl

random_ipv6_in_net_of :
    (network prefix_len bound : ℕ) (draw : ℕ → ℕ)
    → max_offset (128 - prefix_len) ≡ some bound
    → random_ipv6_in_net network prefix_len draw ≡ checked_add network (random_offset bound draw)
unfolding random_ipv6_in_net
random_ipv6_in_net_of network prefix_len bound draw e = rw (e, random_ipv6_in_net) refl

-- Of a network with a prefix of 1 to 128 bits, given by the bits of the prefix, the address is computed
-- without a panic, and it is one of the network's: its prefix is the network's, and it has 128 bits.
pub random_ipv6_in_net-prefix :
    (bits prefix_len : ℕ) (draw : ℕ → ℕ)
    → 0 < prefix_len
    → prefix_len ≤ 128
    → bits < 2 ^ prefix_len
    → ((bound : ℕ) → draw bound ≤ bound)
    → (addr : ℕ) × (random_ipv6_in_net (bits * 2 ^ (128 - prefix_len)) prefix_len draw ≡ some addr)
      × (addr / 2 ^ (128 - prefix_len) ≡ bits)
      × (addr < 2 ^ 128)
random_ipv6_in_net-prefix bits prefix_len draw pos le small fair =
    let size : ℕ = 2 ^ (128 - prefix_len) in
    let offset : ℕ = random_offset (size - 1) draw in
    let inside : offset < size =
      omega
        (arith, random_offset-le (size - 1) draw (fair (size - 1)), pow_pos (128 - prefix_len)) in
    let bits_of : (128 - prefix_len) + prefix_len ≡ 128 = omega arith in
    let whole : size * 2 ^ prefix_len ≡ 2 ^ 128 =
      sym (pow_add (128 - prefix_len) prefix_len) ∙ ap (λ n. 2 ^ n) bits_of in
    let swapped : bits * size + offset ≡ offset + bits * size = omega arith in
    let fits : bits * size + offset < 2 ^ 128 =
      in_network bits size (2 ^ prefix_len) offset small inside whole in
    (
      bits * size + offset,
      random_ipv6_in_net_of (bits * size) prefix_len (size - 1) draw
            (max_offset_lem (128 - prefix_len) (omega arith))
          ∙ checked_add_lem (bits * size) offset fits,
      ap (λ n. n / size) swapped
          ∙ add-mul-div_right offset bits (pow_pos (128 - prefix_len))
          ∙ ap (λ n. n + bits) (div-eq_of_lt inside)
          ∙ omega arith,
      fits,
    )
