-- ===== src/Session/Codec.antt =====
-- Toy codecs, signatures and an exit, on which the tests run: a list goes with its length before it.
use geph.Base.{
  ℕ, zero, suc, ◌≡◌, refl, ap, ap₂, ◌∙◌, true, List, [], ◌∷◌, ◌++◌, Option, none, some, length,
  take, drop, take-append, drop-append,
}
use geph.Mizaru.{UnblindedSignature}
use geph.Mizaru.Tests.{toy}
use geph.Exit.Auth.{AccountLevel, free, plus}
use geph.Session.Hello.{
  ClientCryptHello, shared_secret_challenge, x25519_hello, ClientHello, ExitHello, ExitHelloInner,
  reject, shared_secret_response, x25519_response, Codecs, Signatures,
}

abbrev pack : List ℕ → List ℕ → List ℕ
pack xs ys = length xs ∷ (xs ++ ys)

abbrev unpack : List ℕ → Option (List ℕ × List ℕ)
unpack [] = none
unpack (n ∷ bs) = some (take n bs, drop n bs)

unpack-pack : (xs ys : List ℕ) → unpack (pack xs ys) ≡ some (xs, ys)
unpack-pack xs ys =
    ap₂ (λ a b. some (a, b)) (take-append (length xs) xs ys refl)
      (drop-append (length xs) xs ys refl)

abbrev encode_crypt : ClientCryptHello → List ℕ
encode_crypt (shared_secret_challenge k) = 0 ∷ k
encode_crypt (x25519_hello k) = 1 ∷ k

abbrev decode_crypt : List ℕ → List ℕ → Option ClientHello
decode_crypt credentials [] = none
decode_crypt credentials (zero ∷ k) =
    some (record { credentials = credentials; crypt_hello = shared_secret_challenge k })
decode_crypt credentials (suc n ∷ k) =
    some (record { credentials = credentials; crypt_hello = x25519_hello k })

abbrev decode_client : Option (List ℕ × List ℕ) → Option ClientHello
decode_client none = none
decode_client (some (credentials, k)) = decode_crypt credentials k

abbrev encode_client : ClientHello → List ℕ
encode_client h = pack h.credentials (encode_crypt h.crypt_hello)

pub decode-encode_client : (h : ClientHello) → decode_client (unpack (encode_client h)) ≡ some h
decode-encode_client h =
    ap decode_client (unpack-pack h.credentials (encode_crypt h.crypt_hello))
    ∙ by_case h.credentials h.crypt_hello
  where
    by_case :
        (c : List ℕ) (k : ClientCryptHello)
        → decode_crypt c (encode_crypt k) ≡ some (record { credentials = c; crypt_hello = k })
    by_case c (shared_secret_challenge k) = refl
    by_case c (x25519_hello k) = refl

abbrev encode_inner : ExitHelloInner → List ℕ
encode_inner (reject k) = 0 ∷ k
encode_inner (shared_secret_response k) = 1 ∷ k
encode_inner (x25519_response k) = 2 ∷ k

abbrev decode_inner : List ℕ → List ℕ → Option ExitHello
decode_inner s [] = none
decode_inner s (zero ∷ k) = some (record { inner = reject k; signature = s })
decode_inner s (suc zero ∷ k) = some (record { inner = shared_secret_response k; signature = s })
decode_inner s (suc (suc n) ∷ k) = some (record { inner = x25519_response k; signature = s })

abbrev decode_reply : Option (List ℕ × List ℕ) → Option ExitHello
decode_reply none = none
decode_reply (some (s, k)) = decode_inner s k

abbrev encode_reply : ExitHello → List ℕ
encode_reply h = pack h.signature (encode_inner h.inner)

pub decode-encode_reply : (h : ExitHello) → decode_reply (unpack (encode_reply h)) ≡ some h
decode-encode_reply h =
    ap decode_reply (unpack-pack h.signature (encode_inner h.inner)) ∙ by_case h.signature h.inner
  where
    by_case :
        (s : List ℕ) (k : ExitHelloInner)
        → decode_inner s (encode_inner k) ≡ some (record { inner = k; signature = s })
    by_case s (reject k) = refl
    by_case s (shared_secret_response k) = refl
    by_case s (x25519_response k) = refl

abbrev Credentials : Type 0
Credentials = AccountLevel × List ℕ × UnblindedSignature toy

abbrev level_number : AccountLevel → ℕ
level_number free = 0
level_number plus = 1

abbrev level_from : ℕ → AccountLevel
level_from zero = free
level_from (suc n) = plus

abbrev with_sig : ℕ → ℕ → List ℕ → List ℕ → Option (List ℕ × List ℕ) → Option Credentials
with_sig l e token key none = none
with_sig l e token key (some (branch, sig)) = some (
  level_from l,
  token,
  record { epoch = e; used_key = key; merkle_branch = branch; unblinded_sig = sig },
)

abbrev with_key : ℕ → ℕ → List ℕ → Option (List ℕ × List ℕ) → Option Credentials
with_key l e token none = none
with_key l e token (some (key, bs)) = with_sig l e token key (unpack bs)

abbrev with_token : ℕ → ℕ → Option (List ℕ × List ℕ) → Option Credentials
with_token l e none = none
with_token l e (some (token, bs)) = with_key l e token (unpack bs)

abbrev encode_token : Credentials → List ℕ
encode_token (level, token, sig) =
    level_number level
    ∷ sig.epoch
    ∷ pack token (pack sig.used_key (pack sig.merkle_branch sig.unblinded_sig))

abbrev decode_token : List ℕ → Option Credentials
decode_token [] = none
decode_token (l ∷ []) = none
decode_token (l ∷ e ∷ bs) = with_token l e (unpack bs)

pub decode-encode_token : (c : Credentials) → decode_token (encode_token c) ≡ some c
decode-encode_token (level, token, sig) =
    let tail : List ℕ = pack sig.merkle_branch sig.unblinded_sig in
    ap (with_token (level_number level) sig.epoch) (unpack-pack token (pack sig.used_key tail))
    ∙ ap (with_key (level_number level) sig.epoch token) (unpack-pack sig.used_key tail)
    ∙ ap (with_sig (level_number level) sig.epoch token sig.used_key)
        (unpack-pack sig.merkle_branch sig.unblinded_sig)
    ∙ same_level level
  where
    same_level :
        (l : AccountLevel)
        → ◌≡◌ {A = Option Credentials}
            (some (level_from (level_number l), token, sig))
            (some (l, token, sig))
    same_level free = refl
    same_level plus = refl

abbrev pub toy_codecs : Codecs toy
toy_codecs = record {
  encode_hello = encode_client;
  decode_hello = λ bs. decode_client (unpack bs);
  encode_exit = encode_reply;
  decode_exit = λ bs. decode_reply (unpack bs);
  encode_credentials = encode_token;
  decode_credentials = decode_token;
  encode_signed = λ hello inner. [];
  decode-encode_hello = decode-encode_client;
  decode-encode_exit = decode-encode_reply;
  decode-encode_credentials = decode-encode_token;
}

abbrev pub toy_signatures : Signatures
toy_signatures = record {
  keyed_hash = λ k bs. k;
  verifying_key = λ k. k;
  sign = λ k msg. [];
  verify_strict = λ k msg s. true;
  verify_strict-sign = λ k msg. refl;
}
