-- ===== src/Session/Tests.antt =====
-- The exchange and the pipe at concrete inputs.
use geph.Base.{
  ℕ, ◌+◌, ◌<◌, ◌^◌, ◌≡◌, refl, ap, true, List, [], ◌∷◌, ◌++◌, none, some, length, arith, ℕ_discrete,
}
use geph.Mizaru.{
  UnblindedSignature, blind_verify, verify_member, compare_root, accumulate, verify_signature,
}
use geph.Mizaru.Tests.{toy}
use geph.Mizaru.Tree.{some_inj}
use geph.Exit.Auth.{AccountLevel, free, verify_user, epoch_diff, of_verdict}
use geph.Sosistab.Crypto.{plain}
use geph.Session.CryptPipe.{flatten, write_task, read_task, read_task-write_task}
use geph.Session.Codec.{toy_codecs, toy_signatures}
use geph.Session.Prepend.{write_prepend_length, read_prepend_length}
use geph.Base.Bytes.{read_exact}
use geph.Session.Hello.{
  ClientHello, ExitHello, ExitHelloInner, x25519_response, ExitConfig, Greeting, greeted, authed,
  c2e, e2c, is_level_free, Keys, crypt_hello_of, answer_crypt, exit_hello, read_hello,
  handle_client, client_hello, client_writes, client_auth, handle_hello, greet, check_credentials,
  check_user, of_admission, read_exit_hello, check_exit_hello, agree_keys,
}
use geph.Session.Agree.{swapped, IsWelcome, client_auth-handle_client}
use geph.Session.Admits.{IsAdmitted, IsSigned, handle_client-IsAdmitted, client_auth-IsSigned}

abbrev pieces : List (List ℕ)
pieces = (1 ∷ 2 ∷ []) ∷ (3 ∷ []) ∷ []

read_task-write_task_example :
    read_task plain (5 ∷ []) (length pieces + 1) 0 (write_task plain (5 ∷ []) 0 pieces ++ (9 ∷ []))
    ≡ flatten plain (5 ∷ []) pieces ++ read_task plain (5 ∷ []) 1 (length pieces + 0) (9 ∷ [])
read_task-write_task_example =
    read_task-write_task plain (5 ∷ []) 1 0 pieces (9 ∷ []) (omega arith, (omega arith, tt))

-- An exit that takes free users, and the token of the key for epoch 2 in the toy tree.
abbrev exit : ExitConfig toy toy_codecs plain toy_signatures
exit = record {
  has_broker = true;
  accept_free = true;
  root_of = λ level. 1364;
  current_epoch = 3;
  signing_secret = 8 ∷ [];
}

abbrev token : AccountLevel × List ℕ × UnblindedSignature toy
token = (
  free,
  1 ∷ 2 ∷ [],
  record { epoch = 2; used_key = 13 ∷ []; merkle_branch = 14 ∷ 122 ∷ []; unblinded_sig = 7 ∷ [] },
)

abbrev hello : ClientHello
hello = client_hello toy toy_codecs plain toy_signatures true token none (6 ∷ [])

hello_short : length (toy_codecs.encode_hello hello) < 2 ^ 32
unfolding client_hello crypt_hello_of
hello_short = omega arith

welcome : IsWelcome toy toy_codecs plain toy_signatures exit token
unfolding verify_user epoch_diff of_verdict blind_verify verify_member compare_root accumulate
    ℕ_discrete verify_signature is_level_free
welcome = (refl, refl)

reply_short :
    (inner : ExitHelloInner) (keys : Keys)
    → answer_crypt toy toy_codecs plain toy_signatures none (4 ∷ []) hello.crypt_hello
      ≡ some (inner, keys)
    → length
        (toy_codecs.encode_exit (exit_hello toy toy_codecs plain toy_signatures exit hello inner))
      < 2 ^ 32
unfolding answer_crypt exit_hello client_hello crypt_hello_of
reply_short inner keys e =
    let same = some_inj e in
    omega (
      arith,
      ap
          (λ (x : ExitHelloInner × Keys). length (
            toy_codecs.encode_exit (exit_hello toy toy_codecs plain toy_signatures exit hello x.0)))
          same,
    )

client_auth-handle_client_example :
    (g : Greeting) × (handle_client toy toy_codecs plain toy_signatures exit none
        (4 ∷ [])
        (client_writes toy toy_codecs plain toy_signatures hello ++ (1 ∷ []))
      ≡ greeted g)
    × (g.rest ≡ (1 ∷ []))
    × (g.is_free ≡ true)
    × (client_auth toy toy_codecs plain toy_signatures none
          (6 ∷ [])
          (8 ∷ [])
          hello
          (g.reply ++ (2 ∷ []))
        ≡ authed (swapped g.keys) (2 ∷ []))
unfolding is_level_free
client_auth-handle_client_example =
    client_auth-handle_client toy toy_codecs plain toy_signatures exit true token none (6 ∷ [])
      (4 ∷ []) (1 ∷ []) (2 ∷ []) (λ has. (refl, welcome)) hello_short reply_short

abbrev answer : ExitHello
answer = record { inner = x25519_response (plain.public_key (4 ∷ [])); signature = [] }

abbrev greeting : Greeting
greeting = record {
  reply = write_prepend_length (toy_codecs.encode_exit answer);
  keys = some (plain.derive_key c2e [], plain.derive_key e2c []);
  is_free = true;
  rest = 1 ∷ [];
}

abbrev incoming : List ℕ
incoming = client_writes toy toy_codecs plain toy_signatures hello ++ (1 ∷ [])

greets :
    handle_client toy toy_codecs plain toy_signatures exit none (4 ∷ []) incoming ≡ greeted greeting
unfolding handle_client read_hello read_prepend_length read_exact client_writes write_prepend_length
    client_hello crypt_hello_of handle_hello answer_crypt greet check_credentials check_user
    is_level_free of_admission verify_user epoch_diff of_verdict accumulate blind_verify
    compare_root verify_member verify_signature exit_hello ℕ_discrete
greets = refl

handle_client-IsAdmitted_example :
    (h : ClientHello) × (rest : List ℕ) × (read_hello toy toy_codecs plain toy_signatures incoming
      ≡ some (h, rest))
    × IsAdmitted toy toy_codecs plain toy_signatures exit h.credentials true
handle_client-IsAdmitted_example =
    handle_client-IsAdmitted toy toy_codecs plain toy_signatures exit none (4 ∷ []) incoming
      greeting refl greets

accepts :
    client_auth toy toy_codecs plain toy_signatures none
      (6 ∷ [])
      (8 ∷ [])
      hello
      (greeting.reply ++ [])
    ≡ authed (some (plain.derive_key e2c [], plain.derive_key c2e [])) []
unfolding client_auth read_exit_hello read_prepend_length read_exact write_prepend_length
    check_exit_hello agree_keys
accepts = refl

client_auth-IsSigned_example :
    IsSigned toy toy_codecs plain toy_signatures
      (6 ∷ [])
      (8 ∷ [])
      hello
      (greeting.reply ++ [])
      (some (plain.derive_key e2c [], plain.derive_key c2e []))
      []
client_auth-IsSigned_example =
    client_auth-IsSigned toy toy_codecs plain toy_signatures (6 ∷ []) (8 ∷ [])
      (greeting.reply ++ []) [] hello (some (plain.derive_key e2c [], plain.derive_key c2e []))
      accepts
