-- ===== src/Session/Admits.antt =====
-- What the exchange lets through, against any peer.
use geph.Base.{
  ℕ, ◌≡◌, refl, sym, ap, ◌∙◌, Bool, true, false, not, ◌&&◌, List, Option, none, some, Bool-cases,
  Option-cases, inl, inr, arith,
}
use geph.Mizaru.Packages.{Scheme}
use geph.Mizaru.{UnblindedSignature}
use geph.Exit.Auth.{AccountLevel, Admission, admitted, wrong_epoch, bad_token, crashed, verify_user}
use geph.Sosistab.Crypto.{Crypto}
use geph.Session.Hello.{
  ClientHello, ExitHello, ExitHelloInner, reject, shared_secret_response, x25519_response, Codecs,
  Signatures, Keys, ExitConfig, Greeting, Greeted, greeted, refused, no_hello, no_shared_secret,
  no_credentials, Authed, authed, no_exit_hello, wrong_mac, unexpected_response, bad_signature,
  rejected, c2e, e2c, Checked, allowed, denied, is_level_free, answer_crypt, check_credentials,
  check_user, of_admission, greet, handle_hello, read_hello, handle_client, read_exit_hello,
  agree_keys, check_exit_hello, client_auth,
}

module _ (m : Scheme) (codecs : Codecs m) (crypto : Crypto) (sigs : Signatures) where
  -- A token, in credentials, that is valid at the exit, and of a level that the exit takes.
  pub record IsAdmitted (cfg : ExitConfig m codecs crypto sigs) (credentials : List ℕ)
      (is_free : Bool) : Type 0 where
    pub level : AccountLevel
    pub token : List ℕ
    pub sig : UnblindedSignature m
    pub decoded : codecs.decode_credentials credentials ≡ some (level, token, sig)
    pub valid : verify_user m cfg.root_of cfg.current_epoch level token sig ≡ admitted
    pub level_of : is_free ≡ is_level_free level
    pub taken : (is_level_free level && not cfg.accept_free) ≡ false

  of_admission-allowed :
      (level : AccountLevel) (a : Admission) (is_free : Bool)
      → of_admission m codecs crypto sigs level a ≡ allowed is_free
      → (a ≡ admitted) × (is_free ≡ is_level_free level)
  unfolding of_admission
  of_admission-allowed level admitted is_free e = (refl, cc)
  of_admission-allowed level wrong_epoch is_free e = absurd (cc)
  of_admission-allowed level bad_token is_free e = absurd (cc)
  of_admission-allowed level crashed is_free e = absurd (cc)

  check_user-IsAdmitted :
      (cfg : ExitConfig m codecs crypto sigs) (credentials : List ℕ) (level : AccountLevel)
      (token : List ℕ) (sig : UnblindedSignature m) (is_free : Bool)
      → codecs.decode_credentials credentials ≡ some (level, token, sig)
      → check_user m codecs crypto sigs cfg (level, token, sig) ≡ allowed is_free
      → IsAdmitted cfg credentials is_free
  unfolding check_user
  check_user-IsAdmitted cfg credentials level token sig is_free d e =
      elim (Bool-cases (is_level_free level && not cfg.accept_free)) [
        | inl t ↦ absurd (ground arith)
        | inr t ↦
            let v =
              of_admission-allowed level
                (verify_user m cfg.root_of cfg.current_epoch level token sig) is_free
                (ground arith) in
            record {
              level = level;
              token = token;
              sig = sig;
              decoded = d;
              valid = v.0;
              level_of = v.1;
              taken = t;
            }
      ]

  check_credentials_of :
      (cfg : ExitConfig m codecs crypto sigs) (credentials : List ℕ)
      (c : AccountLevel × List ℕ × UnblindedSignature m)
      → cfg.has_broker ≡ true
      → codecs.decode_credentials credentials ≡ some c
      → check_credentials m codecs crypto sigs cfg credentials
        ≡ check_user m codecs crypto sigs cfg c
  unfolding check_credentials check_user
  check_credentials_of cfg credentials c b d = rw (b, d) refl

  check_credentials-none :
      (cfg : ExitConfig m codecs crypto sigs) (credentials : List ℕ)
      → cfg.has_broker ≡ true
      → codecs.decode_credentials credentials ≡ none
      → check_credentials m codecs crypto sigs cfg credentials ≡ denied no_credentials
  unfolding check_credentials
  check_credentials-none cfg credentials b d = rw (b, d) refl

  check_credentials-IsAdmitted :
      (cfg : ExitConfig m codecs crypto sigs) (credentials : List ℕ) (is_free : Bool)
      → cfg.has_broker ≡ true
      → check_credentials m codecs crypto sigs cfg credentials ≡ allowed is_free
      → IsAdmitted cfg credentials is_free
  check_credentials-IsAdmitted cfg credentials is_free b e =
      elim (Option-cases (codecs.decode_credentials credentials)) [
        | inl d ↦
            let k : denied no_credentials ≡ allowed is_free =
              sym (check_credentials-none cfg credentials b d) ∙ e in
            absurd (cc)
        | inr ((level, token, sig), d) ↦
            check_user-IsAdmitted cfg credentials level token sig is_free d
              (sym (check_credentials_of cfg credentials (level, token, sig) b d) ∙ e)
      ]

  abbrev greeting_or : Greeting → Greeted → Greeting
  greeting_or g (greeted h) = h
  greeting_or g (refused r) = g

  greet-allowed :
      (cfg : ExitConfig m codecs crypto sigs) (hello : ClientHello) (a : ExitHelloInner × Keys)
      (rest : List ℕ) (c : Checked) (g : Greeting)
      → greet m codecs crypto sigs cfg hello a rest c ≡ greeted g
      → c ≡ allowed g.is_free
  unfolding greet
  greet-allowed cfg hello (inner, keys) rest (denied r) g e = absurd (cc)
  greet-allowed cfg hello (inner, keys) rest (allowed is_free) g e =
      ap (λ x. allowed (greeting_or g x).is_free) e

  handle_hello-allowed :
      (cfg : ExitConfig m codecs crypto sigs) (ss : Option (List ℕ)) (my_esk rest : List ℕ)
      (hello : ClientHello) (g : Greeting)
      → handle_hello m codecs crypto sigs cfg ss my_esk hello rest ≡ greeted g
      → check_credentials m codecs crypto sigs cfg hello.credentials ≡ allowed g.is_free
  unfolding handle_hello
  handle_hello-allowed cfg ss my_esk rest hello g e =
      elim (Option-cases (answer_crypt m codecs crypto sigs ss my_esk hello.crypt_hello)) [
        | inl d ↦
            let k : refused no_shared_secret ≡ greeted g = sym (rw (d, handle_hello) refl) ∙ e in
            absurd (cc)
        | inr (a, d) ↦
            greet-allowed cfg hello a rest
              (check_credentials m codecs crypto sigs cfg hello.credentials) g
              (sym (rw (d, handle_hello) refl) ∙ e)
      ]

  -- An exit that has a broker greets nobody, whatever the bytes that come in, but clients whose
  -- hello carries a token that verifies there for a current epoch, and only those of a free level if it
  -- takes free users; the level of the session is that of the token.
  pub handle_client-IsAdmitted :
      (cfg : ExitConfig m codecs crypto sigs) (ss : Option (List ℕ)) (my_esk incoming : List ℕ)
      (g : Greeting)
      → cfg.has_broker ≡ true
      → handle_client m codecs crypto sigs cfg ss my_esk incoming ≡ greeted g
      → (hello : ClientHello) × (rest : List ℕ) × (read_hello m codecs crypto sigs incoming
          ≡ some (hello, rest))
        × IsAdmitted cfg hello.credentials g.is_free
  unfolding handle_client
  handle_client-IsAdmitted cfg ss my_esk incoming g b e =
      elim (Option-cases (read_hello m codecs crypto sigs incoming)) [
        | inl d ↦
            let k : refused no_hello ≡ greeted g = sym (rw (d, handle_client) refl) ∙ e in
            absurd (cc)
        | inr ((hello, rest), d) ↦ (
          hello,
          rest,
          d,
          check_credentials-IsAdmitted cfg hello.credentials g.is_free b (
              handle_hello-allowed cfg ss my_esk rest hello g
                (sym (rw (d, handle_client) refl) ∙ e)),
        )
      ]

  abbrev authed_or : Keys × List ℕ → Authed → Keys × List ℕ
  authed_or d (authed keys rest) = (keys, rest)
  authed_or d no_exit_hello = d
  authed_or d wrong_mac = d
  authed_or d unexpected_response = d
  authed_or d bad_signature = d
  authed_or d rejected = d

  -- The read key and the write key of the side that draws `my_esk` and is sent `their_epk`.
  abbrev pub exchanged : List ℕ → List ℕ → Keys
  exchanged my_esk their_epk =
      let shared_secret = crypto.diffie_hellman my_esk their_epk in
      some (crypto.derive_key e2c shared_secret, crypto.derive_key c2e shared_secret)

  agree_keys-authed :
      (my_esk : List ℕ) (inner : ExitHelloInner) (rest down : List ℕ) (keys : Keys)
      → agree_keys m codecs crypto sigs my_esk inner rest ≡ authed keys down
      → (rest ≡ down)
        × (their_epk : List ℕ) × (inner ≡ x25519_response their_epk)
        × (keys ≡ exchanged my_esk their_epk)
  unfolding agree_keys
  agree_keys-authed my_esk (reject reason) rest down keys e = absurd (cc)
  agree_keys-authed my_esk (shared_secret_response mac) rest down keys e = absurd (cc)
  agree_keys-authed my_esk (x25519_response their_epk) rest down keys e = (
    ap (λ a. (authed_or (none, rest) a).1) e,
    their_epk,
    refl,
    sym (ap (λ a. (authed_or (none, rest) a).0) e),
  )

  -- What a client whose pipe has no shared secret goes on with, given the bytes that came in: they
  -- begin with an exit hello, which carries a public key and a signature of it, and of this client's
  -- own hello, that verifies under the exit's key; the read and the write key are made of that public
  -- key and the client's drawn secret; and what is left to read is all that is behind the exit hello.
  pub record IsSigned (secret pubkey : List ℕ) (hello : ClientHello) (incoming : List ℕ)
      (keys : Keys) (down : List ℕ) : Type 0 where
    pub answer : ExitHello
    pub came : read_exit_hello m codecs crypto sigs incoming ≡ some (answer, down)
    pub their_epk : List ℕ
    pub response : answer.inner ≡ x25519_response their_epk
    pub signed :
        sigs.verify_strict pubkey (codecs.encode_signed hello answer.inner) answer.signature ≡ true
    pub agreed : keys ≡ exchanged secret their_epk

  -- A client whose pipe has no shared secret accepts nothing, whatever the bytes that come in, but an
  -- exit hello at their beginning with a public key, whose signature verifies under the exit's key for
  -- this client's own hello and that public key; its two keys are made of that very public key and its
  -- own secret, and what it goes on to read is what is behind that exit hello.
  pub client_auth-IsSigned :
      (secret pubkey incoming down : List ℕ) (hello : ClientHello) (keys : Keys)
      → client_auth m codecs crypto sigs none secret pubkey hello incoming ≡ authed keys down
      → IsSigned secret pubkey hello incoming keys down
  unfolding client_auth check_exit_hello
  client_auth-IsSigned secret pubkey incoming down hello keys e =
      elim (Option-cases (read_exit_hello m codecs crypto sigs incoming)) [
        | inl d ↦
            let k : no_exit_hello ≡ authed keys down = sym (rw (d, client_auth) refl) ∙ e in
            absurd (cc)
        | inr ((h, rest), d) ↦
            elim (Bool-cases
              (sigs.verify_strict pubkey (codecs.encode_signed hello h.inner) h.signature)) [
                | inl v ↦
                    let (left, their_epk, response, agreed) =
                      agree_keys-authed secret h.inner rest down keys
                        (sym (rw (d, client_auth, v) refl) ∙ e) in
                    record {
                      answer = h;
                      came = d ∙ ap (λ z. some (h, z)) left;
                      their_epk = their_epk;
                      response = response;
                      signed = v;
                      agreed = agreed;
                    }
                | inr v ↦
                    let k : bad_signature ≡ authed keys down =
                      sym (rw (d, client_auth, v) refl) ∙ e in
                    absurd (cc)
              ]
      ]
