-- ===== src/Client/SpoofDns/Tests.antt =====
-- The theorems on fake addresses at concrete names.
use geph.Base.{◌≡◌, refl, [], ◌∷◌, none, some, ℕ_discrete}
use geph.Client.SpoofDns.{
  Name, name_discrete, get, FakeDns, fake_dns_backtranslate, fake_address, fake_dns_allocate,
}
use geph.Client.SpoofDns.Translate.{IsConsistent, backtranslate-allocate, backtranslate-clash}

abbrev empty : FakeDns
empty = record { forward = []; backward = [] }

abbrev first : Name
first = 97 ∷ []

abbrev second : Name
second = []

empty_IsConsistent : IsConsistent empty
unfolding IsConsistent get
empty_IsConsistent name ip h = absurd (cc)

unused : (name : Name) → get name_discrete name empty.forward ≡ none
unfolding get
unused name = refl

free_address : get ℕ_discrete (fake_address 7) empty.backward ≡ none
unfolding get
free_address = refl

backtranslate-allocate_example :
    let (ip, d') = fake_dns_allocate empty first 7 in
    IsConsistent d' × (fake_dns_backtranslate d' ip ≡ some first)
backtranslate-allocate_example =
    backtranslate-allocate empty first 7 empty_IsConsistent (λ e. free_address)

backtranslate-clash_example :
    let (ip, d') = fake_dns_allocate empty first 7 in
    let (ip', d'') = fake_dns_allocate d' second 7 in
    (ip ≡ ip') × (fake_dns_backtranslate d'' ip ≡ some second)
backtranslate-clash_example =
    backtranslate-clash empty first second 7 (λ e. cc) (unused first) (unused second)
