-- ===== src/Client/SpoofDns/Translate.antt =====
-- Fake addresses are translated back to their names, as long as the draws do not clash.
use geph.Base.{
  ℕ, ◌≡◌, ◌≢◌, refl, sym, ◌∙◌, List, ◌∷◌, none, some, Option-cases, inl, inr, ℕ_discrete, arith,
}
use geph.Client.SpoofDns.{
  Name, name_discrete, get, FakeDns, fake_dns_backtranslate, fake_address, fake_dns_allocate,
}

module _ {K V : Type 0} (dec : Discrete K) where
  get_self : (k : K) (v : V) (m : List (K × V)) → get dec k ((k, v) ∷ m) ≡ some v
  unfolding get
  get_self k v m = ground arith

  get_ne : (j k : K) (v : V) (m : List (K × V)) → j ≢ k → get dec k ((j, v) ∷ m) ≡ get dec k m
  unfolding get
  get_ne j k v m n = ground arith

some_inj : {A : Type 0} {a b : A} → some a ≡ some b → a ≡ b
some_inj e = cc

-- Every name that has an address is what its address is translated back to.
unfoldable pub IsConsistent : FakeDns → Type 0
IsConsistent d =
    (name : Name) (ip : ℕ)
    → get name_discrete name d.forward ≡ some ip
    → fake_dns_backtranslate d ip ≡ some name

allocate_old :
    (d : FakeDns) (name : Name) (offset ip : ℕ)
    → get name_discrete name d.forward ≡ some ip
    → fake_dns_allocate d name offset ≡ (ip, d)
unfolding fake_dns_allocate
allocate_old d name offset ip e = rw (e, fake_dns_allocate)

abbrev added : FakeDns → Name → ℕ → FakeDns
added d name offset = record {
  forward = (name, fake_address offset) ∷ d.forward;
  backward = (fake_address offset, name) ∷ d.backward;
}

allocate_new :
    (d : FakeDns) (name : Name) (offset : ℕ)
    → get name_discrete name d.forward ≡ none
    → fake_dns_allocate d name offset ≡ (fake_address offset, added d name offset)
unfolding fake_dns_allocate
allocate_new d name offset e = rw (e, fake_dns_allocate)

added-IsConsistent :
    (d : FakeDns) (name : Name) (offset : ℕ)
    → IsConsistent d
    → get ℕ_discrete (fake_address offset) d.backward ≡ none
    → IsConsistent (added d name offset)
unfolding fake_dns_backtranslate IsConsistent
added-IsConsistent d name offset v free other ip h = elim (name_discrete name other) [
  | yes e ↦
      let here : get name_discrete other ((name, fake_address offset) ∷ d.forward)
          ≡ some (fake_address offset) =
        rw (← e) (get_self name_discrete name (fake_address offset) d.forward) in
      let at : fake_address offset ≡ ip = some_inj (sym here ∙ h) in
      rw (← at, ← e) (get_self ℕ_discrete (fake_address offset) name d.backward)
  | no n ↦
      let before : get name_discrete other d.forward ≡ some ip =
        sym (get_ne name_discrete name other (fake_address offset) d.forward n) ∙ h in
      let back = v other ip before in
      elim (ℕ_discrete (fake_address offset) ip) [
        | yes e ↦ absurd (clash e back)
        | no m ↦ get_ne ℕ_discrete (fake_address offset) ip name d.backward m ∙ back
      ]
]
  where
    clash : fake_address offset ≡ ip → get ℕ_discrete ip d.backward ≡ some other → ⊥
    clash e back = absurd (cc)

back_added :
    (d : FakeDns) (name : Name) (offset : ℕ)
    → fake_dns_backtranslate (added d name offset) (fake_address offset) ≡ some name
unfolding fake_dns_backtranslate
back_added d name offset = get_self ℕ_discrete (fake_address offset) name d.backward

-- From tables in which every name is what its address is translated back to: a name gets an address
-- that is translated back to it, and the tables stay so, if the draw for a new name does not hit an
-- address that is in use.
pub backtranslate-allocate :
    (d : FakeDns) (name : Name) (offset : ℕ)
    → IsConsistent d
    → (get name_discrete name d.forward ≡ none
        → get ℕ_discrete (fake_address offset) d.backward ≡ none)
    → let (ip, d') = fake_dns_allocate d name offset in
      IsConsistent d' × (fake_dns_backtranslate d' ip ≡ some name)
unfolding IsConsistent
backtranslate-allocate d name offset v free =
    elim (Option-cases (get name_discrete name d.forward)) [
      | inr (ip, e) ↦ rw (allocate_old d name offset ip e) (v, v name ip e)
      | inl e ↦
          rw (allocate_new d name offset e)
            (added-IsConsistent d name offset v (free e), back_added d name offset)
    ]

-- When two different names that have no address yet get the same draw, they get the same address,
-- and it is then translated back to the second one: traffic for the first goes to the second.
pub backtranslate-clash :
    (d : FakeDns) (first second : Name) (offset : ℕ)
    → first ≢ second
    → get name_discrete first d.forward ≡ none
    → get name_discrete second d.forward ≡ none
    → let (ip, d') = fake_dns_allocate d first offset in
      let (ip', d'') = fake_dns_allocate d' second offset in
      (ip ≡ ip') × (fake_dns_backtranslate d'' ip ≡ some second)
backtranslate-clash d first second offset n e f =
    let new_second : get name_discrete second (added d first offset).forward ≡ none =
      get_ne name_discrete first second (fake_address offset) d.forward n ∙ f in
    rw (allocate_new d first offset e, allocate_new (added d first offset) second offset new_second)
      (refl, back_added (added d first offset) second offset)
