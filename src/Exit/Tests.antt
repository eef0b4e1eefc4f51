-- ===== src/Exit/Tests.antt =====
-- Addresses in a concrete network.
use geph.Base.{ℕ, ◌-◌, ◌*◌, ◌/◌, ◌^◌, ◌<◌, ◌≡◌, some, arith}
use geph.Exit.Ipv6Net.{random_ipv6_in_net, random_ipv6_in_net-prefix}

abbrev first : ℕ → ℕ
first bound = 0

random_ipv6_in_net-prefix_example :
    (addr : ℕ) × (random_ipv6_in_net (536_936_448 * 2 ^ (128 - 32)) 32 first ≡ some addr)
    × (addr / 2 ^ (128 - 32) ≡ 536_936_448)
    × (addr < 2 ^ 128)
random_ipv6_in_net-prefix_example =
    random_ipv6_in_net-prefix 536_936_448 32 first (omega arith) (omega arith) (omega arith)
      (λ bound. omega arith)
