-- ===== src/Mizaru/Packages.antt =====
-- What mizaru2 takes from its packages: BLAKE3, and RSA blind signatures on 32-byte tokens with
-- SHA-256, in the options that mizaru2 fixes. Keys in DER are lists of bytes.
use Prim.Native.Nat.{ℕ}
use mathlib.Core.Path.{◌≡◌}
use mathlib.Core.Bool.{Bool, true}
use mathlib.Core.List.{List}
use mathlib.Core.Option.{Option, some}

pub record Scheme : Type 1 where
  pub Hash : Type 0
  pub Hash_discrete : Discrete Hash
  pub hash : List ℕ → Hash
  pub keyed_hash : Hash → Hash → Hash
  pub RsaKey : Type 0
  pub RsaPublic : Type 0
  pub Secret : Type 0
  pub to_public_key : RsaKey → RsaPublic
  -- The PKCS#1 encoding, and that of `brs::PublicKey::to_der`; `from_der` reads both.
  pub to_pkcs1_der : RsaPublic → List ℕ
  pub to_der : RsaPublic → List ℕ
  pub from_der : List ℕ → Option RsaPublic
  -- A message, blinded with a draw, and the secret that unblinds its signature.
  pub blind : RsaPublic → List ℕ → ℕ → List ℕ × Secret
  pub blind_sign : RsaKey → List ℕ → List ℕ
  -- Key, blind signature, secret and message to the signature.
  pub finalize : RsaPublic → List ℕ → Secret → List ℕ → Option (List ℕ)
  -- Key, message and signature.
  pub verify : RsaPublic → List ℕ → List ℕ → Bool
  pub from-to_pkcs1_der : (k : RsaPublic) → from_der (to_pkcs1_der k) ≡ some k
  pub from-to_der : (k : RsaPublic) → from_der (to_der k) ≡ some k
  -- A blind signature under a key, unblinded, is a signature of the message under that key.
  pub finalize-blind_sign :
      (k : RsaKey) (msg : List ℕ) (draw : ℕ)
      → let blinded : List ℕ × Secret = blind (to_public_key k) msg draw in
        (s : List ℕ) × (finalize (to_public_key k) (blind_sign k blinded.0) blinded.1 msg ≡ some s)
        × (verify (to_public_key k) msg s ≡ true)
