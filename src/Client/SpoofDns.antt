-- ===== src/Client/SpoofDns.antt =====
-- binaries/geph5-client/src/spoof_dns.rs: the fake IPv4 addresses that stand for DNS names. The two
-- `DashMap`s are lists of entries, of which the newest one of a key counts; an address is its 32-bit
-- number. Parsing and building DNS packets is left to the package.
pub mod Translate
pub mod Tests
use geph.Base.{ℕ, ◌+◌, ◌*◌, ◌^◌, List, [], ◌∷◌, Option, none, some, ℕ_discrete}
use mathlib.Core.List.{List-discrete}

-- A DNS name, by its bytes.
abbrev pub Name : Type 0
Name = List ℕ

abbrev pub name_discrete : Discrete Name
name_discrete = List-discrete ℕ_discrete

module _ {K V : Type 0} (dec : Discrete K) where
  unfoldable pub get : K → List (K × V) → Option V
  get k [] = none
  get k ((j, v) ∷ m) = let rest = get k m in elim (dec j k) [ yes e ↦ some v | no n ↦ rest ]

pub record FakeDns : Type 0 where
  pub forward : List (Name × ℕ)
  pub backward : List (ℕ × Name)

unfoldable pub fake_dns_backtranslate : FakeDns → ℕ → Option Name
fake_dns_backtranslate d fake = get ℕ_discrete fake d.backward

-- 240.0.0.0
abbrev pub base : ℕ
base = 240 * 2 ^ 24

-- The address for a draw below 2^28: `base | offset`, which have no bits in common.
abbrev pub fake_address : ℕ → ℕ
fake_address offset = base + offset

-- The address of a name, and the tables; a new name takes the draw.
unfoldable pub fake_dns_allocate : FakeDns → Name → ℕ → ℕ × FakeDns
fake_dns_allocate d dns_name offset = elim (get name_discrete dns_name d.forward) [
  | some ip_addr ↦ (ip_addr, d)
  | none ↦ (
    fake_address offset,
    record {
      forward = (dns_name, fake_address offset) ∷ d.forward;
      backward = (fake_address offset, dns_name) ∷ d.backward;
    },
  )
]

-- The `A` questions of a packet, in their order, each with a draw; other questions get no answer.
unfoldable pub answers : FakeDns → List (Name × ℕ) → List (Name × ℕ) × FakeDns
answers d [] = ([], d)
answers d ((qname, offset) ∷ questions) =
    let (ip_addr, d') = fake_dns_allocate d qname offset in
    let (rest, d'') = answers d' questions in ((qname, ip_addr) ∷ rest, d'')
