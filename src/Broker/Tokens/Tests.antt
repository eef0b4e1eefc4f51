-- ===== src/Broker/Tokens/Tests.antt =====
-- The broker's users at concrete tables, with the toy scheme of the tokens.
use geph.Base.{ℕ, ◌≡◌, refl, true, false, [], ◌∷◌, some, leb, if◌then◌else◌, arith}
use geph.Mizaru.{SecretKey, BlindedSignature, UnblindedSignature, generate, unblind}
use geph.Mizaru.Tests.{toy, keys, toy_root}
use geph.Exit.Auth.{AccountLevel, plus, admitted, wrong_epoch, epoch_diff, verify_user}
use geph.Broker.Accounts.{Db, Subscription, find_text, find_id}
use geph.Broker.Tokens.{is_plus, signed, get_connect_token}
use geph.Broker.Tokens.Levels.{
  IsSubscriber, get_connect_token-IsSubscriber, get_connect_token-verify_user,
}

abbrev db : Db
db = record {
  reachable = true;
  next_id = 8;
  auth_secret = [];
  auth_password = [];
  auth_tokens = ("one", 6) ∷ ("two", 7) ∷ [];
  subscriptions = (7, record { expires = 100; recurring = false }) ∷ [];
  free_vouchers = [];
  used_puzzles = [];
}

abbrev secret_key : AccountLevel → SecretKey toy
secret_key level = generate toy keys

abbrev root_of : AccountLevel → ℕ
root_of level = 1364

subscribed : is_plus plus ≡ true → (t : Subscription) × (find_id 7 db.subscriptions ≡ some t)
unfolding find_id
subscribed e = (record { expires = 100; recurring = false }, refl)

get_connect_token-verify_user_example :
    (sig : BlindedSignature toy) × (plain : UnblindedSignature toy) × (get_connect_token toy
        secret_key db "two" plus 3
        (1 ∷ 2 ∷ [])
      ≡ signed sig)
    × (unblind toy sig 5 (1 ∷ 2 ∷ []) ≡ some plain)
    × (verify_user toy root_of 4 plus (1 ∷ 2 ∷ []) plain
        ≡ (if leb (epoch_diff 3 4) 2 then admitted else wrong_epoch))
unfolding find_text
get_connect_token-verify_user_example =
    get_connect_token-verify_user toy secret_key db "two" 7 2 3 4 5 plus root_of keys 14
      (1 ∷ 2 ∷ []) refl refl subscribed refl refl (omega arith) (omega arith) refl toy_root

get_connect_token-IsSubscriber_example : IsSubscriber db "two"
unfolding find_text
get_connect_token-IsSubscriber_example =
    get_connect_token-IsSubscriber toy secret_key db "two" 3 (1 ∷ 2 ∷ []) given.0 given.1
  where
    given :
        (sig : BlindedSignature toy) × (get_connect_token toy secret_key db "two" plus 3
            (1 ∷ 2 ∷ [])
          ≡ signed sig)
    given =
        let r =
          get_connect_token-verify_user toy secret_key db "two" 7 2 3 4 5 plus root_of keys 14
            (1 ∷ 2 ∷ []) refl refl subscribed refl refl (omega arith) (omega arith) refl toy_root in
        (r.0, r.2)
