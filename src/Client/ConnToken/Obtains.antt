-- ===== src/Client/ConnToken/Obtains.antt =====
-- What the client makes of a signature from the broker.
use geph.Base.{
  ℕ, ◌≡◌, refl, sym, ap, ◌∙◌, true, List, Option, none, some, ◌==◌, ==_refl, Option-cases, inl, inr,
}
use geph.Mizaru.Packages.{Scheme}
use geph.Mizaru.{
  BlindedSignature, UnblindedSignature, Verdict, valid, invalid, panicked, unblind, blind_verify,
  verify_member,
}
use geph.Mizaru.Tree.{some_inj}
use geph.Exit.Auth.{AccountLevel}
use geph.Client.ConnToken.{is_valid, granted, obtained, check_member, with_signature, on_response}

module _ (m : Scheme) where
  blind_verify-valid :
      (key : m.Hash) (token : List ℕ) (sig : UnblindedSignature m)
      → blind_verify m key token sig ≡ valid
      → (v : Verdict) → verify_member m key sig.epoch sig.used_key sig.merkle_branch ≡ v
      → v ≡ valid
  unfolding blind_verify
  blind_verify-valid key token sig e valid f = refl
  blind_verify-valid key token sig e invalid f =
      let k : invalid ≡ valid = sym (rw (f, blind_verify) refl) ∙ e in absurd (cc)
  blind_verify-valid key token sig e panicked f =
      let k : panicked ≡ valid = sym (rw (f, blind_verify) refl) ∙ e in absurd (cc)

  record SameParts (sig : BlindedSignature m) (plain : UnblindedSignature m) : Type 0 where
    epoch_same : plain.epoch ≡ sig.epoch
    key_same : plain.used_key ≡ sig.used_key
    branch_same : plain.merkle_branch ≡ sig.merkle_branch

  unblind-SameParts :
      (sig : BlindedSignature m) (secret : m.Secret) (msg : List ℕ) (plain : UnblindedSignature m)
      → unblind m sig secret msg ≡ some plain
      → SameParts sig plain
  unfolding unblind
  unblind-SameParts sig secret msg plain e = elim (Option-cases (m.from_der sig.used_key)) [
    | inl f ↦
        let k : ◌≡◌ {A = Option (UnblindedSignature m)} none (some plain) =
          sym (rw (f, unblind) refl) ∙ e in
        absurd (cc)
    | inr (pk, f) ↦ elim (Option-cases (m.finalize pk sig.blinded_sig secret msg)) [
      | inl g ↦
          let k : ◌≡◌ {A = Option (UnblindedSignature m)} none (some plain) =
            sym (rw (f, unblind, g) refl) ∙ e in
          absurd (cc)
      | inr (u, g) ↦
          let k : record {
            epoch = sig.epoch;
            used_key = sig.used_key;
            merkle_branch = sig.merkle_branch;
            unblinded_sig = u;
          }
              ≡ plain =
            some_inj (sym (rw (f, unblind, g) refl) ∙ e) in
          record {
            epoch_same = ap (λ (z : UnblindedSignature m). z.epoch) (sym k);
            key_same = ap (λ (z : UnblindedSignature m). z.used_key) (sym k);
            branch_same = ap (λ (z : UnblindedSignature m). z.merkle_branch) (sym k);
          }
    ]
  ]

  pub on_response-granted :
      (roots : AccountLevel → m.Hash) (level : AccountLevel) (epoch : ℕ) (token : List ℕ)
      (secret : m.Secret) (sig : BlindedSignature m) (plain : UnblindedSignature m)
      → unblind m sig secret token ≡ some plain
      → plain.epoch ≡ epoch
      → blind_verify m (roots level) token plain ≡ valid
      → on_response m (some roots) level epoch token secret (granted sig)
        ≡ obtained (record { level = level; token = token; sig = plain })
  unfolding on_response check_member with_signature is_valid
  on_response-granted roots level epoch token secret sig plain u e v =
      let parts = unblind-SameParts sig secret token plain u in
      let member =
        blind_verify-valid (roots level) token plain v
          (verify_member m (roots level) plain.epoch plain.used_key plain.merkle_branch) refl in
      let same : (sig.epoch == epoch) ≡ true =
        ap (λ z. z == epoch) (sym parts.epoch_same ∙ e) ∙ ==_refl epoch in
      let here : verify_member m (roots level) epoch sig.used_key sig.merkle_branch ≡ valid =
        ap (λ z. verify_member m (roots level) z sig.used_key sig.merkle_branch) (sym e)
        ∙ ap (λ z. verify_member m (roots level) plain.epoch z sig.merkle_branch)
            (sym parts.key_same)
        ∙ ap (λ z. verify_member m (roots level) plain.epoch plain.used_key z)
            (sym parts.branch_same)
        ∙ member in
      rw (on_response, check_member, with_signature, is_valid, same, here, u) refl
