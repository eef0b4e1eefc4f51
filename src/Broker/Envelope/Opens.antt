-- ===== src/Broker/Envelope/Opens.antt =====
-- When an envelope opens, and with what.
use geph.Base.{ℕ, ◌≡◌, ◌↔◌, Bool, List, if◌then◌else◌, arith}
use geph.Broker.Envelope.{
  Packages, opened, rejected, invalid_public_key, mac_new, mac_verify, to_sign, signed_new,
  signed_verify,
}

module _ {T : Type 0} (p : Packages T) where
  -- A message whose hash was made under one secret, and into which any content may have been put
  -- since, opens under a secret exactly if the keyed hashes of the two agree; the original opens
  -- under its own secret.
  pub mac_verify-mac_new :
      (inner other : T) (made used : List ℕ)
      → (mac_verify p (mac_new p inner made) made ≡ opened inner)
        × ((mac_verify p (record (mac_new p inner made) { inner = other }) used ≡ opened other)
            ↔ (p.keyed_hash made (p.stdcode inner) ≡ p.keyed_hash used (p.stdcode other)))
  unfolding mac_verify mac_new
  mac_verify-mac_new inner other made used =
      (ground arith, (λ h. ground (arith, h), λ e. ground (arith, e)))

  -- A signed message opens, with what was put in, for everyone who uses its domain and takes the
  -- signer's public key to be valid; whoever does not gets the error for an invalid key.
  pub signed_verify-signed_new :
      (inner : T) (domain seckey : List ℕ) (is_valid_pk : List ℕ → Bool)
      → signed_verify p (signed_new p inner domain seckey) domain is_valid_pk ≡ (
          if is_valid_pk (p.verifying_key seckey)
          then opened inner
          else rejected invalid_public_key)
  unfolding signed_verify signed_new
  signed_verify-signed_new inner domain seckey is_valid_pk =
      ground (arith, p.verify_strict-sign seckey (to_sign p inner domain))
