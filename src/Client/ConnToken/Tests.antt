-- ===== src/Client/ConnToken/Tests.antt =====
-- A client's refresh at concrete tables, with the toy scheme of the tokens.
use geph.Base.{ℕ, ◌≡◌, refl, true, false, [], ◌∷◌, some, leb, if◌then◌else◌, arith}
use geph.Mizaru.{SecretKey, generate}
use geph.Mizaru.Tests.{toy, keys, toy_root}
use geph.Exit.Auth.{AccountLevel, free, plus, admitted, wrong_epoch, epoch_diff, verify_user}
use geph.Broker.Accounts.{UserInfo, Db, find_text, find_id, level_of}
use geph.Client.ConnToken.{ConnToken, TokenDb, obtained, refresh_epoch, refresh_conn_token}
use geph.Client.ConnToken.Table.{left, or_new, refresh_conn_token-obtained}
use geph.Client.ConnToken.Served.{service, refresh_epoch-service}

abbrev db : Db
db = record {
  reachable = true;
  next_id = 8;
  auth_secret = [];
  auth_password = [];
  auth_tokens = ("one", 6) ∷ ("two", 7) ∷ [];
  subscriptions = (7, record { expires = 100; recurring = false }) ∷ [];
  free_vouchers = [];
  used_puzzles = [];
}

abbrev secret_key : AccountLevel → SecretKey toy
secret_key level = generate toy keys

abbrev root_of : AccountLevel → ℕ
root_of level = 1364

abbrev draw : AccountLevel → ℕ
draw free = 5
draw plus = 6

refresh_epoch-service_example :
    (t : ConnToken toy) × (refresh_epoch toy
        (service toy secret_key db "two")
        (some root_of)
        3
        (1 ∷ 2 ∷ [])
        draw
      ≡ obtained t)
    × (t.level ≡ level_of (find_id 7 db.subscriptions))
    × (t.token ≡ 1 ∷ 2 ∷ [])
    × (verify_user toy root_of 4 t.level t.token t.sig
        ≡ (if leb (epoch_diff 3 4) 2 then admitted else wrong_epoch))
unfolding find_text
refresh_epoch-service_example =
    refresh_epoch-service toy secret_key db "two" 7 refl refl root_of 2 3 4 draw (λ level. keys)
      (λ level. 14) (1 ∷ 2 ∷ []) (λ level. refl) (λ level. refl) (omega arith) (omega arith)
      (λ level. refl) (λ level. toy_root)

abbrev user : UserInfo
user = record { user_id = 7; plus_expires_unix = some 100; recurring = false }

abbrev free_token : ConnToken toy
free_token = record {
  level = free;
  token = [];
  sig = record { epoch = 2; used_key = []; merkle_branch = []; unblinded_sig = [] };
}

abbrev old_tokens : TokenDb toy
old_tokens = (2, free_token) ∷ []

got_2 :
    (t : ConnToken toy) × (refresh_epoch toy
        (service toy secret_key db "two")
        (some root_of)
        2
        (1 ∷ 2 ∷ [])
        draw
      ≡ obtained t)
unfolding find_text
got_2 =
    let r =
      refresh_epoch-service toy secret_key db "two" 7 refl refl root_of 2 2 2 draw (λ level. keys)
        (λ level. 13) (1 ∷ 2 ∷ []) (λ level. refl) (λ level. refl) (omega arith) (omega arith)
        (λ level. refl) (λ level. toy_root) in
    (r.0, r.1)

got_3 :
    (t : ConnToken toy) × (refresh_epoch toy
        (service toy secret_key db "two")
        (some root_of)
        3
        (1 ∷ 2 ∷ [])
        draw
      ≡ obtained t)
unfolding find_text
got_3 =
    let r =
      refresh_epoch-service toy secret_key db "two" 7 refl refl root_of 2 3 2 draw (λ level. keys)
        (λ level. 14) (1 ∷ 2 ∷ []) (λ level. refl) (λ level. refl) (omega arith) (omega arith)
        (λ level. refl) (λ level. toy_root) in
    (r.0, r.1)

refresh_conn_token-obtained_example :
    (after : TokenDb toy) × (refresh_conn_token toy
        (service toy secret_key db "two")
        (some root_of)
        (some user)
        2
        (λ n. 1 ∷ 2 ∷ [])
        (λ n. draw)
        old_tokens
      ≡ (after, true))
    × (find_id 2 after ≡ some (or_new toy got_2.0 (left toy user 2 old_tokens 2)))
    × (find_id 3 after ≡ some (or_new toy got_3.0 (left toy user 2 old_tokens 3)))
refresh_conn_token-obtained_example =
    refresh_conn_token-obtained toy (service toy secret_key db "two") (some root_of) user 2
      (λ n. 1 ∷ 2 ∷ []) (λ n. draw) old_tokens got_2.0 got_3.0 got_2.1 got_3.1
