-- ===== src/Client/ConnToken/Served.antt =====
-- The client's requests answered by the broker's service, and what it gets is worth at an exit.
use Prim.Native.String.{String}
use geph.Base.{
  ℕ, ◌^◌, ◌<◌, ◌≤◌, ◌≡◌, refl, sym, ap, ◌∙◌, true, List, some, if◌then◌else◌, length, get_elem?,
  leb, ◌⊎◌, inl, inr,
}
use geph.Mizaru.Packages.{Scheme}
use geph.Mizaru.{
  SecretKey, UnblindedSignature, valid, blind_sign, blind_verify, generate, to_public_key,
}
use geph.Mizaru.Tree.{some_inj}
use geph.Mizaru.Blind.{blind_verify-unblind, rsa_keys-generate}
use geph.Exit.Auth.{
  AccountLevel, free, plus, admitted, wrong_epoch, epoch_diff, verify_user, verify_user_of,
}
use geph.Broker.Accounts.{Db, find_text, find_id, level_of}
use geph.Broker.Tokens.{
  der_of, get_mizaru_subkey, ConnectToken, signed, refused, crashed, get_connect_token, sign_at,
  is_plus,
}
use geph.Broker.Tokens.Levels.{valid_auth_token_known, sign_at_ok}
use geph.Client.ConnToken.{
  Response, granted, denied, no_response, BrokerCalls, ConnToken, obtained, nothing, on_response,
  decode_subkey, request_with, request, or_next, refresh_epoch,
}
use geph.Client.ConnToken.Obtains.{on_response-granted}

level-cases : (level : AccountLevel) → (level ≡ free) ⊎ (level ≡ plus)
level-cases free = inl refl
level-cases plus = inr refl

module _ (m : Scheme) where
  -- The broker's calls, as its service answers a user.
  unfoldable pub to_response :
      (secret_key : AccountLevel → SecretKey m) → ConnectToken m secret_key → Response m
  to_response secret_key (signed s) = granted s
  to_response secret_key (refused e) = denied e
  to_response secret_key crashed = no_response

  unfoldable pub service : (AccountLevel → SecretKey m) → Db → String → BrokerCalls m
  service secret_key db auth_token = record {
    get_mizaru_subkey = get_mizaru_subkey m secret_key;
    get_connect_token = λ level epoch blind_token.
        to_response secret_key
          (get_connect_token m secret_key db auth_token level epoch blind_token);
  }

  module _ (secret_key : AccountLevel → SecretKey m) (db : Db) (auth_token : String) (user_id : ℕ)
      (reachable : db.reachable ≡ true)
      (known : find_text auth_token db.auth_tokens ≡ some user_id) where
    abbrev user_level : AccountLevel
    user_level = level_of (find_id user_id db.subscriptions)

    -- What the service answers to a request of the user.
    asks :
        (level : AccountLevel) (epoch : ℕ) (blind_token : List ℕ)
        → get_connect_token m secret_key db auth_token level epoch blind_token
          ≡ sign_at m secret_key user_level level epoch blind_token
    unfolding get_connect_token
    asks level epoch blind_token =
        rw (valid_auth_token_known db auth_token user_id reachable known, get_connect_token) refl

    request-service :
        (roots : AccountLevel → m.Hash) (level : AccountLevel) (epoch draw : ℕ) (token : List ℕ)
        (k : m.RsaKey)
        → get_elem? (secret_key level).rsa_keys epoch ≡ some k
        → let blinded : List ℕ × m.Secret = m.blind (m.to_public_key k) token draw in
          request m (service secret_key db auth_token) (some roots) level epoch token draw
          ≡ on_response m
              (some roots)
              level
              epoch
              token
              blinded.1
              (to_response secret_key (sign_at m secret_key user_level level epoch blinded.0))
    unfolding request request_with decode_subkey service der_of get_mizaru_subkey
    request-service roots level epoch draw token k g =
        rw
          (
            g,
            request,
            request_with,
            decode_subkey,
            service,
            der_of,
            get_mizaru_subkey,
            m.from-to_der (m.to_public_key k),
            asks level epoch,
          )
          refl

    request-plus_free :
        (roots : AccountLevel → m.Hash) (epoch draw : ℕ) (token : List ℕ) (k : m.RsaKey)
        → get_elem? (secret_key plus).rsa_keys epoch ≡ some k
        → user_level ≡ free
        → request m (service secret_key db auth_token) (some roots) plus epoch token draw ≡ nothing
    unfolding on_response sign_at is_plus to_response
    request-plus_free roots epoch draw token k g f =
        let blinded : List ℕ × m.Secret = m.blind (m.to_public_key k) token draw in
        request-service roots plus epoch draw token k g
        ∙ ap
            (λ u.
              on_response m (some roots) plus epoch token blinded.1
                (to_response secret_key (sign_at m secret_key u plus epoch blinded.0)))
            f

    request-allowed :
        (roots : AccountLevel → m.Hash) (level : AccountLevel) (d epoch current_epoch draw : ℕ)
        (ks : List m.RsaKey) (k : m.RsaKey) (token : List ℕ)
        → (is_plus level ≡ true → is_plus user_level ≡ true)
        → secret_key level ≡ generate m ks
        → length ks ≡ 2 ^ d
        → d ≤ 16
        → epoch < 2 ^ d
        → get_elem? ks epoch ≡ some k
        → to_public_key m (generate m ks) ≡ some (roots level)
        → (plain : UnblindedSignature m) × (request m
              (service secret_key db auth_token)
              (some roots)
              level
              epoch
              token
              draw
            ≡ obtained (record { level = level; token = token; sig = plain }))
          × (verify_user m roots current_epoch level token plain
              ≡ (if leb (epoch_diff epoch current_epoch) 2 then admitted else wrong_epoch))
    unfolding to_response
    request-allowed roots level d epoch current_epoch draw ks k token paid sk e l h g root =
        let (key, sig, plain, top, signs, unblinds, ok, same) =
          blind_verify-unblind m d epoch draw ks k token e l h g in
        let blinded : List ℕ × m.Secret = m.blind (m.to_public_key k) token draw in
        let ok_here : blind_verify m (roots level) token plain ≡ valid =
          ap (λ z. blind_verify m z token plain) (some_inj (sym root ∙ top)) ∙ ok in
        let signs_here : blind_sign m (secret_key level) epoch blinded.0 ≡ some sig =
          ap (λ z. blind_sign m z epoch blinded.0) sk ∙ signs in
        let has : get_elem? (secret_key level).rsa_keys epoch ≡ some k =
          ap (λ (z : SecretKey m). get_elem? z.rsa_keys epoch) sk
          ∙ ap (λ z. get_elem? z epoch) (rsa_keys-generate m ks)
          ∙ g in
        (
          plain,
          request-service roots level epoch draw token k has
              ∙ ap
                  (λ z.
                    on_response m (some roots) level epoch token blinded.1
                      (to_response secret_key z))
                  (sign_at_ok m secret_key user_level level epoch blinded.0 sig paid signs_here)
              ∙ on_response-granted m roots level epoch token blinded.1 sig plain unblinds same
                  ok_here,
          verify_user_of m roots current_epoch epoch level token plain same ok_here,
        )

    -- When the service is up and knows the auth token, and has for each level a tree over 2^d keys
    -- (d at most 16), with the root that the client has for the level, and a key for the epoch, which
    -- is below 2^d, the client's loop over the levels obtains a token of the user's own level, over
    -- the drawn bytes. An exit with the same roots lets it in if the exit's epoch is at most 2 away,
    -- and refuses it for its epoch otherwise.
    pub refresh_epoch-service :
        (roots : AccountLevel → m.Hash) (d epoch current_epoch : ℕ) (draw : AccountLevel → ℕ)
        (ks : AccountLevel → List m.RsaKey) (k : AccountLevel → m.RsaKey) (token : List ℕ)
        → ((level : AccountLevel) → secret_key level ≡ generate m (ks level))
        → ((level : AccountLevel) → length (ks level) ≡ 2 ^ d)
        → d ≤ 16
        → epoch < 2 ^ d
        → ((level : AccountLevel) → get_elem? (ks level) epoch ≡ some (k level))
        → ((level : AccountLevel) → to_public_key m (generate m (ks level)) ≡ some (roots level))
        → (t : ConnToken m) × (refresh_epoch m
              (service secret_key db auth_token)
              (some roots)
              epoch
              token
              draw
            ≡ obtained t)
          × (t.level ≡ level_of (find_id user_id db.subscriptions))
          × (t.token ≡ token)
          × (verify_user m roots current_epoch t.level t.token t.sig
              ≡ (if leb (epoch_diff epoch current_epoch) 2 then admitted else wrong_epoch))
    unfolding refresh_epoch or_next is_plus
    refresh_epoch-service roots d epoch current_epoch draw ks k token sk e l h g root =
        elim (level-cases user_level) [
          | inl f ↦
              let (plain, asked, worth) =
                request-allowed roots free d epoch current_epoch (draw free) (ks free) (k free)
                  token (λ p. absurd (cc)) (sk free) (e free) l h (g free) (root free) in
              let has : get_elem? (secret_key plus).rsa_keys epoch ≡ some (k plus) =
                ap (λ (z : SecretKey m). get_elem? z.rsa_keys epoch) (sk plus)
                ∙ ap (λ z. get_elem? z epoch) (rsa_keys-generate m (ks plus))
                ∙ g plus in
              (
                _,
                rw
                    (
                      request-plus_free roots epoch (draw plus) token (k plus) has f,
                      asked,
                      refresh_epoch,
                      or_next,
                    )
                    refl,
                sym f,
                refl,
                worth,
              )
          | inr f ↦
              let (plain, asked, worth) =
                request-allowed roots plus d epoch current_epoch (draw plus) (ks plus) (k plus)
                  token (λ p. ap is_plus f) (sk plus) (e plus) l h (g plus) (root plus) in
              (_, rw (asked, refresh_epoch, or_next) refl, sym f, refl, worth)
        ]
