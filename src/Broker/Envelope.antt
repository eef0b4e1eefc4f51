-- ===== src/Broker/Envelope.antt =====
-- libraries/geph5-broker-protocol/src/mac.rs and signed.rs: messages under a preshared secret, and
-- messages under an ed25519 key. Serialisation, hashes and signatures are the packages'.
pub mod Opens
use geph.Base.{
  ℕ, ◌≡◌, refl, Bool, true, false, not, List, [], ◌∷◌, ◌++◌, Option, none, some, if◌then◌else◌,
  ℕ_discrete,
}
use mathlib.Core.List.{List-discrete}

pub record Packages (T : Type 0) : Type 0 where
  pub stdcode : T → List ℕ
  pub hash : List ℕ → List ℕ
  pub keyed_hash : List ℕ → List ℕ → List ℕ
  pub verifying_key : List ℕ → List ℕ
  -- Signing key and message.
  pub sign : List ℕ → List ℕ → List ℕ
  -- Verifying key, message and signature.
  pub verify_strict : List ℕ → List ℕ → List ℕ → Bool
  pub verify_strict-sign :
      (k msg : List ℕ) → verify_strict (verifying_key k) msg (sign k msg) ≡ true

pub record Mac (T : Type 0) : Type 0 where
  pub inner : T
  pub khash : List ℕ

pub record Signed (T : Type 0) : Type 0 where
  pub inner : T
  pub signature : List ℕ
  pub pubkey : List ℕ

pub data VerifyError : Type 0 where
  invalid_mac invalid_public_key invalid_signature : VerifyError

pub data Opened (T : Type 0) : Type 0 where
  opened : T → Opened T
  rejected : VerifyError → Opened T

abbrev pub hash_discrete : Discrete (List ℕ)
hash_discrete = List-discrete ℕ_discrete

module _ {T : Type 0} (p : Packages T) where
  unfoldable pub mac_new : T → List ℕ → Mac T
  mac_new inner preshared_secret = record {
    inner = inner;
    khash = p.keyed_hash preshared_secret (p.stdcode inner);
  }

  unfoldable pub mac_verify : Mac T → List ℕ → Opened T
  mac_verify m preshared_secret =
      let expected_hash = p.keyed_hash preshared_secret (p.stdcode m.inner) in
      elim (hash_discrete m.khash expected_hash) [
        | yes e ↦ opened m.inner
        | no n ↦ rejected invalid_mac
      ]

  unfoldable pub to_sign : T → List ℕ → List ℕ
  to_sign inner domain = p.keyed_hash (p.hash domain) (p.stdcode inner)

  unfoldable pub signed_new : T → List ℕ → List ℕ → Signed T
  signed_new inner domain seckey = record {
    inner = inner;
    signature = p.sign seckey (to_sign inner domain);
    pubkey = p.verifying_key seckey;
  }

  unfoldable pub signed_verify : Signed T → List ℕ → (List ℕ → Bool) → Opened T
  signed_verify s domain is_valid_pk =
      if not (is_valid_pk s.pubkey)
      then rejected invalid_public_key
      else if p.verify_strict s.pubkey (to_sign s.inner domain) s.signature
      then opened s.inner
      else rejected invalid_signature
