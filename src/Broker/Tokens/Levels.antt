-- ===== src/Broker/Tokens/Levels.antt =====
-- Connect tokens from the broker to the exit.
use Prim.Native.String.{String}
use geph.Base.{
  ℕ, ◌^◌, ◌<◌, ◌≤◌, ◌≡◌, refl, sym, ap, ◌∙◌, true, false, List, Option, none, some, if◌then◌else◌,
  Bool-cases, Option-cases, inl, inr, length, get_elem?, leb, arith,
}
use geph.Mizaru.Packages.{Scheme}
use geph.Mizaru.{
  SecretKey, BlindedSignature, UnblindedSignature, blind_sign, unblind, generate, to_public_key,
}
use geph.Exit.Auth.{
  AccountLevel, free, plus, admitted, wrong_epoch, epoch_diff, verify_user, verify_user-unblind,
}
use geph.Mizaru.Tree.{some_inj}
use geph.Broker.Accounts.{
  rate_limited, forbidden, Db, Subscription, find_text, find_id, level_of, with_level,
  valid_auth_token,
}
use geph.Broker.Tokens.{is_plus, signed, refused, of_signature, sign_at, get_connect_token}

-- The user of an auth token has a subscription.
pub record IsSubscriber (db : Db) (auth_token : String) : Type 0 where
  pub user_id : ℕ
  pub subscription : Subscription
  pub known : find_text auth_token db.auth_tokens ≡ some user_id
  pub subscribed : find_id user_id db.subscriptions ≡ some subscription

level_of-plus :
    (s : Option Subscription) → is_plus (level_of s) ≡ true → (t : Subscription) × (s ≡ some t)
unfolding level_of is_plus
level_of-plus none h = absurd (cc)
level_of-plus (some t) h = (t, refl)

pub level_of_some :
    (s : Option Subscription) → (t : Subscription) × (s ≡ some t) → is_plus (level_of s) ≡ true
unfolding level_of is_plus
level_of_some none (t, e) = absurd (cc)
level_of_some (some s) h = refl

pub valid_auth_token_known :
    (db : Db) (auth_token : String) (user_id : ℕ)
    → db.reachable ≡ true
    → find_text auth_token db.auth_tokens ≡ some user_id
    → valid_auth_token db auth_token
      ≡ some (some (user_id, level_of (find_id user_id db.subscriptions)))
unfolding valid_auth_token with_level
valid_auth_token_known db auth_token user_id r f =
    ap (λ b. if b then some (with_level db (find_text auth_token db.auth_tokens)) else none) r
    ∙ ap (λ u. some (with_level db u)) f

with_level-some :
    (db : Db) (user : Option ℕ) (user_id : ℕ) (level : AccountLevel)
    → with_level db user ≡ some (user_id, level)
    → (user ≡ some user_id) × (level ≡ level_of (find_id user_id db.subscriptions))
unfolding with_level
with_level-some db none user_id level e = absurd (cc)
with_level-some db (some u) user_id level e =
    let p : ◌≡◌ {A = ℕ × AccountLevel} (u, level_of (find_id u db.subscriptions)) (user_id, level) =
      some_inj e in
    (
      ap (λ (x : ℕ × AccountLevel). some x.0) p,
      sym (ap (λ (x : ℕ × AccountLevel). x.1) p)
          ∙ ap (λ (x : ℕ × AccountLevel). level_of (find_id x.0 db.subscriptions)) p,
    )

valid_auth_token-some :
    (db : Db) (auth_token : String) (user_id : ℕ) (level : AccountLevel)
    → valid_auth_token db auth_token ≡ some (some (user_id, level))
    → (find_text auth_token db.auth_tokens ≡ some user_id)
      × (level ≡ level_of (find_id user_id db.subscriptions))
unfolding valid_auth_token
valid_auth_token-some db auth_token user_id level e = elim (Bool-cases db.reachable) [
  | inr r ↦ absurd (ground arith)
  | inl r ↦ with_level-some db (find_text auth_token db.auth_tokens) user_id level (
      some_inj (
        sym (
          ap (λ b. if b then some (with_level db (find_text auth_token db.auth_tokens)) else none)
            r)
        ∙ e))
]

module _ (m : Scheme) (secret_key : AccountLevel → SecretKey m) where
  sign_at-plus :
      (user_level : AccountLevel) (epoch : ℕ) (blind_token : List ℕ) (s : BlindedSignature m)
      → sign_at m secret_key user_level plus epoch blind_token ≡ signed s
      → is_plus user_level ≡ true
  unfolding sign_at is_plus
  sign_at-plus free epoch blind_token s e = absurd (cc)
  sign_at-plus plus epoch blind_token s e = refl

  pub sign_at_ok :
      (user_level level : AccountLevel) (epoch : ℕ) (blind_token : List ℕ) (s : BlindedSignature m)
      → (is_plus level ≡ true → is_plus user_level ≡ true)
      → blind_sign m (secret_key level) epoch blind_token ≡ some s
      → sign_at m secret_key user_level level epoch blind_token ≡ signed s
  unfolding sign_at is_plus of_signature
  sign_at_ok user_level free epoch blind_token s h e = rw e refl
  sign_at_ok free plus epoch blind_token s h e = let f : false ≡ true = h refl in absurd (cc)
  sign_at_ok plus plus epoch blind_token s h e = rw e refl

  signed_user :
      (db : Db) (auth_token : String) (level : AccountLevel) (epoch : ℕ) (blind_token : List ℕ)
      (s : BlindedSignature m)
      → get_connect_token m secret_key db auth_token level epoch blind_token ≡ signed s
      → (user_id : ℕ) × (user_level : AccountLevel) × (valid_auth_token db auth_token
          ≡ some (some (user_id, user_level)))
        × (sign_at m secret_key user_level level epoch blind_token ≡ signed s)
  unfolding get_connect_token
  signed_user db auth_token level epoch blind_token s e =
      elim (Option-cases (valid_auth_token db auth_token)) [
        | inl v ↦
            let k : refused rate_limited ≡ signed s = sym (rw (v, get_connect_token) refl) ∙ e in
            absurd (cc)
        | inr (u, v) ↦ elim (Option-cases u) [
          | inl w ↦
              let k : refused forbidden ≡ signed s = sym (rw (v, w, get_connect_token) refl) ∙ e in
              absurd (cc)
          | inr ((user_id, user_level), w) ↦
              (user_id, user_level, v ∙ ap some w, sym (rw (v, w, get_connect_token) refl) ∙ e)
        ]
      ]

  -- The broker signs no connect token with the key of plus accounts but for an auth token that it knows,
  -- of a user who has a subscription.
  pub get_connect_token-IsSubscriber :
      (db : Db) (auth_token : String) (epoch : ℕ) (blind_token : List ℕ) (s : BlindedSignature m)
      → get_connect_token m secret_key db auth_token plus epoch blind_token ≡ signed s
      → IsSubscriber db auth_token
  get_connect_token-IsSubscriber db auth_token epoch blind_token s e =
      let (user_id, user_level, v, w) = signed_user db auth_token plus epoch blind_token s e in
      let (known, level) = valid_auth_token-some db auth_token user_id user_level v in
      let (t, subscribed) =
        level_of-plus (find_id user_id db.subscriptions)
          (sym (ap is_plus level) ∙ sign_at-plus user_level epoch blind_token s w) in
      record { user_id = user_id; subscription = t; known = known; subscribed = subscribed }

  -- A user whom the broker, with its tables in reach, knows by an auth token, and who has a subscription
  -- if the level is plus, gets a signature of any blinded token for an epoch that the level's tree, over
  -- 2^d keys with d at most 16, has; unblinded, it lets the user in at an exit that has the tree's root
  -- for the level, if the exit's epoch is at most 2 away, and is refused there for its epoch otherwise.
  pub get_connect_token-verify_user :
      (db : Db) (auth_token : String) (user_id d epoch current_epoch draw : ℕ)
      (level : AccountLevel) (root_of : AccountLevel → m.Hash) (ks : List m.RsaKey) (k : m.RsaKey)
      (token : List ℕ)
      → db.reachable ≡ true
      → find_text auth_token db.auth_tokens ≡ some user_id
      → (is_plus level ≡ true → (t : Subscription) × (find_id user_id db.subscriptions ≡ some t))
      → secret_key level ≡ generate m ks
      → length ks ≡ 2 ^ d
      → d ≤ 16
      → epoch < 2 ^ d
      → get_elem? ks epoch ≡ some k
      → to_public_key m (generate m ks) ≡ some (root_of level)
      → let blinded : List ℕ × m.Secret = m.blind (m.to_public_key k) token draw in
        (sig : BlindedSignature m) × (plain : UnblindedSignature m) × (get_connect_token m
            secret_key db auth_token level epoch blinded.0
          ≡ signed sig)
        × (unblind m sig blinded.1 token ≡ some plain)
        × (verify_user m root_of current_epoch level token plain
            ≡ (if leb (epoch_diff epoch current_epoch) 2 then admitted else wrong_epoch))
  unfolding get_connect_token
  get_connect_token-verify_user db auth_token user_id d epoch current_epoch draw level root_of ks k
        token r f plus_of sk e l h g root =
      let (sig, plain, signs, unblinds, verifies) =
        verify_user-unblind m root_of d epoch current_epoch draw level ks k token e l h g root in
      let blinded : List ℕ × m.Secret = m.blind (m.to_public_key k) token draw in
      let signs_here : blind_sign m (secret_key level) epoch blinded.0 ≡ some sig =
        ap (λ key. blind_sign m key epoch blinded.0) sk ∙ signs in
      let paid : is_plus level ≡ true
          → is_plus (level_of (find_id user_id db.subscriptions)) ≡ true =
        λ p. level_of_some (find_id user_id db.subscriptions) (plus_of p) in
      (
        sig,
        plain,
        rw (valid_auth_token_known db auth_token user_id r f, get_connect_token)
            (sign_at_ok (level_of (find_id user_id db.subscriptions)) level epoch blinded.0 sig paid
              signs_here),
        unblinds,
        verifies,
      )
