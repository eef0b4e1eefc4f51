-- ===== src/Session/Agree.antt =====
-- The two sides of the exchange against each other.
use geph.Base.{
  ℕ, ◌≡◌, ◌<◌, ◌^◌, refl, ◌∙◌, Bool, true, false, not, ◌&&◌, List, ◌++◌, Option, none, some, length,
  Bool-cases, inl, inr,
}
use geph.Base.Bytes.{bytes_eq_refl}
use geph.Mizaru.Packages.{Scheme}
use geph.Mizaru.{UnblindedSignature}
use geph.Exit.Auth.{AccountLevel, admitted, verify_user}
use geph.Sosistab.Crypto.{Crypto}
use geph.Session.Prepend.{write_prepend_length, read-write_prepend_length}
use geph.Session.Hello.{
  ClientHello, ExitHello, ExitHelloInner, Codecs, Signatures, Keys, ExitConfig, Greeting, greeted,
  authed, allowed, is_level_free, answer_crypt, check_credentials, check_user, of_admission,
  exit_hello, greet, handle_hello, read_hello, handle_client, crypt_hello_of, client_hello,
  read_exit_hello, check_mac, agree_keys, check_exit_hello, client_writes, client_auth,
}

-- The two keys of one side are those of the other, the other way round.
unfoldable pub swapped : Keys → Keys
swapped none = none
swapped (some (read_key, write_key)) = some (write_key, read_key)

module _ (m : Scheme) (codecs : Codecs m) (crypto : Crypto) (sigs : Signatures) where
  read_hello-written :
      (hello : ClientHello) (rest : List ℕ)
      → length (codecs.encode_hello hello) < 2 ^ 32
      → read_hello m codecs crypto sigs (client_writes m codecs crypto sigs hello ++ rest)
        ≡ some (hello, rest)
  unfolding read_hello client_writes
  read_hello-written hello rest l =
      rw
        (
          read-write_prepend_length (codecs.encode_hello hello) rest l,
          read_hello,
          codecs.decode-encode_hello hello,
        )
        refl

  read_exit_hello-written :
      (h : ExitHello) (rest : List ℕ)
      → length (codecs.encode_exit h) < 2 ^ 32
      → read_exit_hello m codecs crypto sigs (write_prepend_length (codecs.encode_exit h) ++ rest)
        ≡ some (h, rest)
  unfolding read_exit_hello
  read_exit_hello-written h rest l =
      rw
        (
          read-write_prepend_length (codecs.encode_exit h) rest l,
          read_exit_hello,
          codecs.decode-encode_exit h,
        )
        refl

  -- Either way, the client makes the exit's keys, the other way round, of the exit's answer.
  record Answered (cfg : ExitConfig m codecs crypto sigs) (hello : ClientHello)
      (ss : Option (List ℕ)) (secret my_esk down : List ℕ) : Type 0 where
    inner : ExitHelloInner
    keys : Keys
    answers :
        answer_crypt m codecs crypto sigs ss my_esk (crypt_hello_of m codecs crypto sigs ss secret)
        ≡ some (inner, keys)
    agrees :
        check_exit_hello m codecs crypto sigs ss secret
          (sigs.verifying_key cfg.signing_secret)
          hello
          (exit_hello m codecs crypto sigs cfg hello inner)
          down
        ≡ authed (swapped keys) down

  answer_crypt-Answered :
      (cfg : ExitConfig m codecs crypto sigs) (hello : ClientHello) (ss : Option (List ℕ))
      (secret my_esk down : List ℕ)
      → Answered cfg hello ss secret my_esk down
  unfolding answer_crypt crypt_hello_of check_exit_hello exit_hello check_mac agree_keys swapped
  answer_crypt-Answered cfg hello (some ss) secret my_esk down = record {
    inner = _;
    keys = _;
    answers = refl;
    agrees = rw (bytes_eq_refl (sigs.keyed_hash secret ss)) refl;
  }
  answer_crypt-Answered cfg hello none secret my_esk down = record {
    inner = _;
    keys = _;
    answers = refl;
    agrees =
        rw (sigs.verify_strict-sign cfg.signing_secret _, crypto.diffie_hellman_comm secret my_esk)
          refl;
  }

  -- The user's token is valid at the exit, and the exit takes users of its level.
  abbrev pub IsWelcome :
      ExitConfig m codecs crypto sigs → AccountLevel × List ℕ × UnblindedSignature m → Type 0
  IsWelcome cfg (level, token, sig) =
      (verify_user m cfg.root_of cfg.current_epoch level token sig ≡ admitted)
      × ((is_level_free level && not cfg.accept_free) ≡ false)

  check_credentials-IsWelcome :
      (cfg : ExitConfig m codecs crypto sigs) (has_broker : Bool)
      (c : AccountLevel × List ℕ × UnblindedSignature m) (ss : Option (List ℕ)) (secret : List ℕ)
      → (cfg.has_broker ≡ true → (has_broker ≡ true) × IsWelcome cfg c)
      → check_credentials m codecs crypto sigs cfg
          (client_hello m codecs crypto sigs has_broker c ss secret).credentials
        ≡ allowed (cfg.has_broker && is_level_free c.0)
  unfolding check_credentials client_hello check_user of_admission
  check_credentials-IsWelcome cfg has_broker (level, token, sig) ss secret h =
      elim (Bool-cases cfg.has_broker) [
        | inl e ↦
            let (has, welcome) = h e in
            rw (e, has, codecs.decode-encode_credentials (level, token, sig), welcome.1, welcome.0)
              refl
        | inr e ↦ rw e refl
      ]

  handle_client_of :
      (cfg : ExitConfig m codecs crypto sigs) (hello : ClientHello) (ss : Option (List ℕ))
      (my_esk incoming up : List ℕ) (inner : ExitHelloInner) (keys : Keys) (is_free : Bool)
      → read_hello m codecs crypto sigs incoming ≡ some (hello, up)
      → answer_crypt m codecs crypto sigs ss my_esk hello.crypt_hello ≡ some (inner, keys)
      → check_credentials m codecs crypto sigs cfg hello.credentials ≡ allowed is_free
      → handle_client m codecs crypto sigs cfg ss my_esk incoming
        ≡ greet m codecs crypto sigs cfg hello (inner, keys) up (allowed is_free)
  unfolding handle_client handle_hello
  handle_client_of cfg hello ss my_esk incoming up inner keys is_free e f g =
      rw (e, handle_client, f, handle_hello, g) refl

  client_auth_of :
      (ss : Option (List ℕ)) (secret pubkey incoming down : List ℕ) (hello : ClientHello)
      (h : ExitHello)
      → read_exit_hello m codecs crypto sigs incoming ≡ some (h, down)
      → client_auth m codecs crypto sigs ss secret pubkey hello incoming
        ≡ check_exit_hello m codecs crypto sigs ss secret pubkey hello h down
  unfolding client_auth
  client_auth_of ss secret pubkey incoming down hello h e = rw (e, client_auth) refl

  -- A client and an exit that have the same shared secret of their pipe, or both none; where the exit
  -- has a broker, so has the client, its token is valid there, and the exit takes users of its level,
  -- and where it has none, the client has one or not and any token; messages of less than 2^32 bytes;
  -- and the exit's public key in the client's hands. The exit greets the client, with the right mark
  -- for a free user, which without a broker is none; the client accepts the greeting; what either
  -- writes afterwards is what the other goes on to read; and each side's read key is the other's write
  -- key, or neither has any.
  pub client_auth-handle_client :
      (cfg : ExitConfig m codecs crypto sigs) (has_broker : Bool)
      (token : AccountLevel × List ℕ × UnblindedSignature m) (ss : Option (List ℕ))
      (secret my_esk up down : List ℕ)
      → let hello : ClientHello = client_hello m codecs crypto sigs has_broker token ss secret in
        (cfg.has_broker ≡ true → (has_broker ≡ true) × IsWelcome cfg token)
        → length (codecs.encode_hello hello) < 2 ^ 32
        → ((inner : ExitHelloInner) (keys : Keys)
            → answer_crypt m codecs crypto sigs ss my_esk hello.crypt_hello ≡ some (inner, keys)
            → length (codecs.encode_exit (exit_hello m codecs crypto sigs cfg hello inner))
              < 2 ^ 32)
        → (g : Greeting) × (handle_client m codecs crypto sigs cfg ss my_esk
              (client_writes m codecs crypto sigs hello ++ up)
            ≡ greeted g)
          × (g.rest ≡ up)
          × (g.is_free ≡ (cfg.has_broker && is_level_free token.0))
          × (client_auth m codecs crypto sigs ss secret
                (sigs.verifying_key cfg.signing_secret)
                hello
                (g.reply ++ down)
              ≡ authed (swapped g.keys) down)
  unfolding client_hello greet
  client_auth-handle_client cfg has_broker token ss secret my_esk up down ready l k =
      let hello : ClientHello = client_hello m codecs crypto sigs has_broker token ss secret in
      let a = answer_crypt-Answered cfg hello ss secret my_esk down in
      (
        _,
        handle_client_of cfg hello ss my_esk _ up a.inner a.keys _ (read_hello-written hello up l)
            a.answers (check_credentials-IsWelcome cfg has_broker token ss secret ready),
        refl,
        refl,
        client_auth_of ss secret _ _ down hello _
              (read_exit_hello-written _ down (k a.inner a.keys a.answers))
            ∙ a.agrees,
      )
