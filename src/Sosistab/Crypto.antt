-- ===== src/Sosistab/Crypto.antt =====
-- What sosistab3 takes from its cryptographic packages: ChaCha20-Poly1305 with detached tags,
-- BLAKE3, and X25519. Keys, nonces, hashes and points are lists of bytes.
use Prim.Native.Nat.{ℕ}
use mathlib.Core.Path.{◌≡◌, refl}
use mathlib.Core.List.{List, [], ◌++◌}
use mathlib.Core.Option.{Option, some}
use geph.Base.{length, replicate}

pub record Crypto : Type 0 where
  -- `encrypt_in_place_detached`: key, nonce and plaintext to the ciphertext and its tag.
  pub seal : List ℕ → List ℕ → List ℕ → List ℕ × List ℕ
  -- `decrypt_in_place_detached`: key, nonce, ciphertext and tag.
  pub unseal : List ℕ → List ℕ → List ℕ → List ℕ → Option (List ℕ)
  -- `blake3::derive_key`: context and key material.
  pub derive_key : List ℕ → List ℕ → List ℕ
  pub hash : List ℕ → List ℕ
  -- The public point of a secret, and the shared secret of a secret and a point.
  pub public_key : List ℕ → List ℕ
  pub diffie_hellman : List ℕ → List ℕ → List ℕ
  pub unseal-seal : (k n p : List ℕ) → unseal k n (seal k n p).0 (seal k n p).1 ≡ some p
  pub length-cipher : (k n p : List ℕ) → length (seal k n p).0 ≡ length p
  pub length-tag : (k n p : List ℕ) → length (seal k n p).1 ≡ 16
  pub length-hash : (p : List ℕ) → length (hash p) ≡ 32
  pub length-public_key : (s : List ℕ) → length (public_key s) ≡ 32
  pub diffie_hellman_comm :
      (s t : List ℕ) → diffie_hellman s (public_key t) ≡ diffie_hellman t (public_key s)

-- A toy instance, which shows that the laws can be met and on which the tests run: the plaintext
-- is its own ciphertext.
abbrev pub plain : Crypto
plain = record {
  seal = λ k n p. (p, replicate 16 0);
  unseal = λ k n c t. some c;
  derive_key = λ c k. c ++ k;
  hash = λ p. replicate 32 0;
  public_key = λ s. replicate 32 0;
  diffie_hellman = λ s p. [];
  unseal-seal = λ k n p. refl;
  length-cipher = λ k n p. refl;
  length-tag = λ k n p. refl;
  length-hash = λ p. refl;
  length-public_key = λ s. refl;
  diffie_hellman_comm = λ s t. refl;
}
