-- ===== src/Mizaru/Tests.antt =====
-- The theorems on the tree of keys at concrete inputs, with a toy scheme.
use geph.Base.{
  ℕ, ◌+◌, ◌*◌, ◌≡◌, refl, ◌⊎◌, true, List, [], ◌∷◌, Option, none, some, replicate, ℕ_discrete,
  arith,
}
use geph.Base.Bytes.{from_le_bytes}
use geph.Mizaru.Packages.{Scheme}
use geph.Mizaru.{
  valid, panicked, root, levels, decimate, compare_root, accumulate, generate, to_public_key,
  verify_member,
}
use geph.Mizaru.Member.{Collision, verify_member-long, verify_member-binds}

abbrev head_of : List ℕ → Option ℕ
head_of [] = none
head_of (k ∷ ks) = some k

-- Keys are numbers, and everything is signed by itself.
abbrev pub toy : Scheme
toy = record {
  Hash = ℕ;
  Hash_discrete = ℕ_discrete;
  hash = from_le_bytes;
  keyed_hash = λ a b. 10 * a + b;
  RsaKey = ℕ;
  RsaPublic = ℕ;
  Secret = ℕ;
  to_public_key = λ k. k;
  to_pkcs1_der = λ k. k ∷ [];
  to_der = λ k. k ∷ 0 ∷ [];
  from_der = head_of;
  blind = λ k msg draw. (msg, draw);
  blind_sign = λ k msg. msg;
  finalize = λ k s secret msg. some s;
  verify = λ k msg s. true;
  from-to_pkcs1_der = λ k. refl;
  from-to_der = λ k. refl;
  finalize-blind_sign = λ k msg draw. (msg, refl, refl);
}

abbrev pub keys : List ℕ
keys = 11 ∷ 12 ∷ 13 ∷ 14 ∷ []

verify_member-long_example : verify_member toy 7 3 (11 ∷ []) (replicate 17 0) ≡ panicked
verify_member-long_example = verify_member-long toy 7 3 (11 ∷ []) (replicate 17 0) (omega arith)

pub toy_root : to_public_key toy (generate toy keys) ≡ some 1364
unfolding to_public_key generate root levels decimate
toy_root = refl

toy_member : verify_member toy 1364 2 (13 ∷ []) (14 ∷ 122 ∷ []) ≡ valid
unfolding verify_member compare_root accumulate ℕ_discrete
toy_member = refl

verify_member-binds_example :
    (toy.hash (13 ∷ []) ≡ toy.hash (toy.to_pkcs1_der (toy.to_public_key 13))) ⊎ Collision toy
verify_member-binds_example =
    verify_member-binds toy 2 2 keys 13 1364 (13 ∷ []) (14 ∷ 122 ∷ []) refl (omega arith)
      (omega arith) refl toy_root refl toy_member
