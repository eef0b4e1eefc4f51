-- ===== src/Mizaru/Blind.antt =====
-- A token, from blinding to verification.
use geph.Base.{ℕ, ◌^◌, ◌≤◌, ◌<◌, ◌≡◌, refl, ap, ◌∙◌, true, List, some, length, get_elem?}
use geph.Mizaru.Packages.{Scheme}
use geph.Mizaru.{
  valid, SecretKey, BlindedSignature, UnblindedSignature, generate, merkle_branch, to_public_key,
  blind_sign, unblind, verify_signature, blind_verify, verify_member,
}
use geph.Mizaru.Member.{verify_member-merkle_branch}

module _ (m : Scheme) where
  pub rsa_keys-generate : (ks : List m.RsaKey) → (generate m ks).rsa_keys ≡ ks
  unfolding generate
  rsa_keys-generate ks = refl

  blind_sign_lem :
      (sk : SecretKey m) (epoch : ℕ) (token : List ℕ) (k : m.RsaKey) (hs : List m.Hash)
      → get_elem? sk.rsa_keys epoch ≡ some k
      → merkle_branch m sk epoch ≡ some hs
      → blind_sign m sk epoch token
        ≡ some (record {
          epoch = epoch;
          used_key = m.to_pkcs1_der (m.to_public_key k);
          merkle_branch = hs;
          blinded_sig = m.blind_sign k token;
        })
  unfolding blind_sign
  blind_sign_lem sk epoch token k hs e f = rw (e, f, blind_sign)

  unblind_lem :
      (sig : BlindedSignature m) (secret : m.Secret) (msg s : List ℕ) (k : m.RsaKey)
      → sig.used_key ≡ m.to_pkcs1_der (m.to_public_key k)
      → m.finalize (m.to_public_key k) sig.blinded_sig secret msg ≡ some s
      → unblind m sig secret msg
        ≡ some (record {
          epoch = sig.epoch;
          used_key = sig.used_key;
          merkle_branch = sig.merkle_branch;
          unblinded_sig = s;
        })
  unfolding unblind
  unblind_lem sig secret msg s k e f =
      rw (ap m.from_der e ∙ m.from-to_pkcs1_der (m.to_public_key k), f, unblind)

  blind_verify_lem :
      (key : m.Hash) (token : List ℕ) (sig : UnblindedSignature m) (k : m.RsaKey)
      → sig.used_key ≡ m.to_pkcs1_der (m.to_public_key k)
      → verify_member m key sig.epoch sig.used_key sig.merkle_branch ≡ valid
      → m.verify (m.to_public_key k) token sig.unblinded_sig ≡ true
      → blind_verify m key token sig ≡ valid
  unfolding blind_verify verify_signature
  blind_verify_lem key token sig k e f g = rw (
    f,
    ap m.from_der e ∙ m.from-to_pkcs1_der (m.to_public_key k),
    g,
    blind_verify,
    verify_signature,
  )

  -- A token that a client blinds for the key of an epoch below 2^d, that the holder of the tree
  -- over 2^d keys (d at most 16) signs, and that the client unblinds, is verified for the token
  -- against the root and keeps the epoch; no step fails or panics.
  pub blind_verify-unblind :
      (d epoch draw : ℕ) (ks : List m.RsaKey) (k : m.RsaKey) (token : List ℕ)
      → length ks ≡ 2 ^ d
      → d ≤ 16
      → epoch < 2 ^ d
      → get_elem? ks epoch ≡ some k
      → let blinded : List ℕ × m.Secret = m.blind (m.to_public_key k) token draw in
        (key : m.Hash) × (sig : BlindedSignature m) × (plain : UnblindedSignature m)
        × (to_public_key m (generate m ks) ≡ some key)
        × (blind_sign m (generate m ks) epoch blinded.0 ≡ some sig)
        × (unblind m sig blinded.1 token ≡ some plain)
        × (blind_verify m key token plain ≡ valid)
        × (plain.epoch ≡ epoch)
  blind_verify-unblind d epoch draw ks k token e l h g =
      let (key, hs, top, found, deep, member) =
        verify_member-merkle_branch m d epoch ks k e l h g in
      let (s, f, v) = m.finalize-blind_sign k token draw in
      (
        key,
        _,
        _,
        top,
        blind_sign_lem (generate m ks) epoch _ k hs
            (ap (λ z. get_elem? z epoch) (rsa_keys-generate ks) ∙ g) found,
        unblind_lem _ _ token s k refl f,
        blind_verify_lem key token _ k refl member v,
        refl,
      )
