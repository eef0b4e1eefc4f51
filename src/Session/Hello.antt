-- ===== src/Session/Hello.antt =====
-- The exchange at the start of a session: `client_auth` of binaries/geph5-client/src/client_inner.rs and
-- `handle_client` of binaries/geph5-exit/src/listen.rs up to the multiplexer. Serialisation (stdcode),
-- hashes, signatures and key exchange are the packages'. What each side draws is an argument, and the
-- rate limiter and the logs are left out.
use geph.Base.{
  ℕ, ◌≡◌, Bool, true, false, not, ◌&&◌, List, [], ◌∷◌, Option, none, some, if◌then◌else◌,
}
use geph.Base.Bytes.{bytes_eq}
use geph.Mizaru.Packages.{Scheme}
use geph.Mizaru.{UnblindedSignature}
use geph.Exit.Auth.{
  AccountLevel, free, plus, Admission, admitted, wrong_epoch, bad_token, crashed, verify_user,
}
use geph.Sosistab.Crypto.{Crypto}
use geph.Session.Prepend.{write_prepend_length, read_prepend_length}

pub data ClientCryptHello : Type 0 where
  shared_secret_challenge x25519_hello : List ℕ → ClientCryptHello

pub record ClientHello : Type 0 where
  pub credentials : List ℕ
  pub crypt_hello : ClientCryptHello

pub data ExitHelloInner : Type 0 where
  -- The reason; the hash; the public key.
  reject shared_secret_response x25519_response : List ℕ → ExitHelloInner

pub record ExitHello : Type 0 where
  pub inner : ExitHelloInner
  pub signature : List ℕ

pub record Codecs (m : Scheme) : Type 0 where
  pub encode_hello : ClientHello → List ℕ
  pub decode_hello : List ℕ → Option ClientHello
  pub encode_exit : ExitHello → List ℕ
  pub decode_exit : List ℕ → Option ExitHello
  pub encode_credentials : AccountLevel × List ℕ × UnblindedSignature m → List ℕ
  pub decode_credentials : List ℕ → Option (AccountLevel × List ℕ × UnblindedSignature m)
  -- `(client_hello, exit_hello_inner).stdcode()`
  pub encode_signed : ClientHello → ExitHelloInner → List ℕ
  pub decode-encode_hello : (h : ClientHello) → decode_hello (encode_hello h) ≡ some h
  pub decode-encode_exit : (h : ExitHello) → decode_exit (encode_exit h) ≡ some h
  pub decode-encode_credentials :
      (c : AccountLevel × List ℕ × UnblindedSignature m)
      → decode_credentials (encode_credentials c) ≡ some c

pub record Signatures : Type 0 where
  pub keyed_hash : List ℕ → List ℕ → List ℕ
  pub verifying_key : List ℕ → List ℕ
  -- Signing key and message; verifying key, message and signature.
  pub sign : List ℕ → List ℕ → List ℕ
  pub verify_strict : List ℕ → List ℕ → List ℕ → Bool
  pub verify_strict-sign :
      (k msg : List ℕ) → verify_strict (verifying_key k) msg (sign k msg) ≡ true

-- The labels "c2e" and "e2c" of the two keys.
abbrev pub c2e : List ℕ
c2e = 99 ∷ 50 ∷ 101 ∷ []

abbrev pub e2c : List ℕ
e2c = 101 ∷ 50 ∷ 99 ∷ []

-- The read key and the write key, where there are any.
abbrev pub Keys : Type 0
Keys = Option (List ℕ × List ℕ)

pub data Refusal : Type 0 where
  no_hello no_shared_secret no_credentials free_rejected : Refusal
  not_verified : Admission → Refusal

pub data Checked : Type 0 where
  -- Whether the user is a free one.
  allowed : Bool → Checked
  denied : Refusal → Checked

pub record Greeting : Type 0 where
  pub reply : List ℕ
  pub keys : Keys
  pub is_free : Bool
  -- What the client has sent behind its hello.
  pub rest : List ℕ

pub data Greeted : Type 0 where
  refused : Refusal → Greeted
  greeted : Greeting → Greeted

pub data Authed : Type 0 where
  -- The keys, where the pipe is encrypted anew, and what the exit has sent behind its hello.
  authed : Keys → List ℕ → Authed
  no_exit_hello wrong_mac unexpected_response bad_signature rejected : Authed

unfoldable pub is_level_free : AccountLevel → Bool
is_level_free free = true
is_level_free plus = false

module _ (m : Scheme) (codecs : Codecs m) (crypto : Crypto) (sigs : Signatures) where
  -- The exit: its configuration, and what of it changes.
  pub record ExitConfig : Type 0 where
    pub has_broker : Bool
    pub accept_free : Bool
    pub root_of : AccountLevel → m.Hash
    pub current_epoch : ℕ
    pub signing_secret : List ℕ

  -- The answer to the client's cryptographic hello, with the keys.
  unfoldable pub answer_crypt :
      Option (List ℕ) → List ℕ → ClientCryptHello → Option (ExitHelloInner × Keys)
  answer_crypt none my_esk (shared_secret_challenge key) = none
  answer_crypt (some real_ss) my_esk (shared_secret_challenge key) =
      some (shared_secret_response (sigs.keyed_hash key real_ss), none)
  answer_crypt ss my_esk (x25519_hello their_epk) =
      let shared_secret = crypto.diffie_hellman my_esk their_epk in
      some (
        x25519_response (crypto.public_key my_esk),
        some (crypto.derive_key c2e shared_secret, crypto.derive_key e2c shared_secret),
      )

  -- The check of the credentials: whether the user is a free one, or why the client is refused.
  unfoldable pub of_admission : AccountLevel → Admission → Checked
  of_admission level admitted = allowed (is_level_free level)
  of_admission level wrong_epoch = denied (not_verified wrong_epoch)
  of_admission level bad_token = denied (not_verified bad_token)
  of_admission level crashed = denied (not_verified crashed)

  unfoldable pub check_user : ExitConfig → AccountLevel × List ℕ × UnblindedSignature m → Checked
  check_user cfg (level, token, sig) =
      if is_level_free level && not cfg.accept_free
      then denied free_rejected
      else of_admission level (verify_user m cfg.root_of cfg.current_epoch level token sig)

  unfoldable pub check_credentials : ExitConfig → List ℕ → Checked
  check_credentials cfg credentials =
      if cfg.has_broker
      then elim (codecs.decode_credentials credentials) [
        | none ↦ denied no_credentials
        | some c ↦ check_user cfg c
      ]
      else allowed false

  unfoldable pub exit_hello : ExitConfig → ClientHello → ExitHelloInner → ExitHello
  exit_hello cfg hello inner = record {
    inner = inner;
    signature = sigs.sign cfg.signing_secret (codecs.encode_signed hello inner);
  }

  unfoldable pub greet :
      ExitConfig → ClientHello → ExitHelloInner × Keys → List ℕ → Checked → Greeted
  greet cfg hello (inner, keys) rest (denied r) = refused r
  greet cfg hello (inner, keys) rest (allowed is_free) = greeted (record {
    reply = write_prepend_length (codecs.encode_exit (exit_hello cfg hello inner));
    keys = keys;
    is_free = is_free;
    rest = rest;
  })

  unfoldable pub handle_hello :
      ExitConfig → Option (List ℕ) → List ℕ → ClientHello → List ℕ → Greeted
  handle_hello cfg ss my_esk hello rest = elim (answer_crypt ss my_esk hello.crypt_hello) [
    | none ↦ refused no_shared_secret
    | some a ↦ greet cfg hello a rest (check_credentials cfg hello.credentials)
  ]

  unfoldable pub read_hello : List ℕ → Option (ClientHello × List ℕ)
  read_hello incoming = elim (read_prepend_length incoming) [
    | none ↦ none
    | some (bytes, rest) ↦ elim (codecs.decode_hello bytes) [
      | none ↦ none
      | some hello ↦ some (hello, rest)
    ]
  ]

  -- The pipe's shared secret, the drawn X25519 secret, and the bytes from the client.
  unfoldable pub handle_client : ExitConfig → Option (List ℕ) → List ℕ → List ℕ → Greeted
  handle_client cfg ss my_esk incoming = elim (read_hello incoming) [
    | none ↦ refused no_hello
    | some (hello, rest) ↦ handle_hello cfg ss my_esk hello rest
  ]

  -- The client. `secret` is the challenge, or the X25519 secret, that it draws.
  unfoldable pub crypt_hello_of : Option (List ℕ) → List ℕ → ClientCryptHello
  crypt_hello_of none secret = x25519_hello (crypto.public_key secret)
  crypt_hello_of (some ss) secret = shared_secret_challenge secret

  unfoldable pub client_hello :
      Bool → AccountLevel × List ℕ × UnblindedSignature m → Option (List ℕ) → List ℕ → ClientHello
  client_hello has_broker token ss secret = record {
    credentials = if has_broker then codecs.encode_credentials token else [];
    crypt_hello = crypt_hello_of ss secret;
  }

  unfoldable pub read_exit_hello : List ℕ → Option (ExitHello × List ℕ)
  read_exit_hello incoming = elim (read_prepend_length incoming) [
    | none ↦ none
    | some (bytes, rest) ↦ elim (codecs.decode_exit bytes) [ none ↦ none | some h ↦ some (h, rest) ]
  ]

  unfoldable pub check_mac : List ℕ → List ℕ → ExitHelloInner → List ℕ → Authed
  check_mac ss challenge (shared_secret_response response_mac) rest =
      if bytes_eq (sigs.keyed_hash challenge ss) response_mac then authed none rest else wrong_mac
  check_mac ss challenge (reject reason) rest = unexpected_response
  check_mac ss challenge (x25519_response their_epk) rest = unexpected_response

  unfoldable pub agree_keys : List ℕ → ExitHelloInner → List ℕ → Authed
  agree_keys my_esk (reject reason) rest = rejected
  agree_keys my_esk (shared_secret_response mac) rest = unexpected_response
  agree_keys my_esk (x25519_response their_epk) rest =
      let shared_secret = crypto.diffie_hellman my_esk their_epk in
      authed (some (crypto.derive_key e2c shared_secret, crypto.derive_key c2e shared_secret)) rest

  unfoldable pub check_exit_hello :
      Option (List ℕ) → List ℕ → List ℕ → ClientHello → ExitHello → List ℕ → Authed
  check_exit_hello (some ss) secret pubkey hello h rest = check_mac ss secret h.inner rest
  check_exit_hello none secret pubkey hello h rest =
      if sigs.verify_strict pubkey (codecs.encode_signed hello h.inner) h.signature
      then agree_keys secret h.inner rest
      else bad_signature

  -- What `client_auth` writes, and what it makes of the bytes from the exit.
  unfoldable pub client_writes : ClientHello → List ℕ
  client_writes hello = write_prepend_length (codecs.encode_hello hello)

  unfoldable pub client_auth : Option (List ℕ) → List ℕ → List ℕ → ClientHello → List ℕ → Authed
  client_auth ss secret pubkey hello incoming = elim (read_exit_hello incoming) [
    | none ↦ no_exit_hello
    | some (h, rest) ↦ check_exit_hello ss secret pubkey hello h rest
  ]
