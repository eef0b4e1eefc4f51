-- ===== src/Client/ConnToken.antt =====
-- binaries/geph5-client/src/auth.rs: how the client gets its connect tokens (`refresh_conn_token`). The
-- client's table of tokens is a list by epoch; the calls of the broker, the draws and the text of the
-- keys are arguments. Epochs are below 2^16 - 1, where `epoch + 1` does not overflow.
pub mod Obtains
pub mod Served
pub mod Table
pub mod Tests
use geph.Base.{
  ℕ, ◌+◌, ◌≡◌, Bool, true, false, not, ◌&&◌, List, [], ◌∷◌, Option, none, some, ◌==◌, ltb,
  if◌then◌else◌,
}
use geph.Mizaru.Packages.{Scheme}
use geph.Mizaru.{
  BlindedSignature, UnblindedSignature, unblind, verify_member, Verdict, valid, invalid, panicked,
}
use geph.Exit.Auth.{AccountLevel, free, plus}
use geph.Broker.Accounts.{
  AuthError, rate_limited, forbidden, wrong_level, Subscription, UserInfo, find_id,
}
use geph.Broker.Tokens.{is_plus}

unfoldable pub is_valid : Verdict → Bool
is_valid valid = true
is_valid invalid = false
is_valid panicked = false

module _ (m : Scheme) where
  pub data Response : Type 0 where
    granted : BlindedSignature m → Response
    denied : AuthError → Response
    no_response : Response

  pub record BrokerCalls : Type 0 where
    pub get_mizaru_subkey : AccountLevel → ℕ → Option (List ℕ)
    pub get_connect_token : AccountLevel → ℕ → List ℕ → Response

  pub record ConnToken : Type 0 where
    pub level : AccountLevel
    pub token : List ℕ
    pub sig : UnblindedSignature m

  -- What one request, or all of one epoch, comes to; `nothing` where the level is the wrong one.
  pub data Obtained : Type 0 where
    obtained : ConnToken → Obtained
    nothing failed : Obtained

  -- The roots of the two levels, where the client has the broker's keys.
  unfoldable pub check_member :
      Option (AccountLevel → m.Hash) → AccountLevel → ℕ → BlindedSignature m → Bool
  check_member none level epoch res = true
  check_member (some keys) level epoch res =
      is_valid (verify_member m (keys level) epoch res.used_key res.merkle_branch)

  unfoldable pub with_signature : AccountLevel → List ℕ → Option (UnblindedSignature m) → Obtained
  with_signature level token none = failed
  with_signature level token (some u_sig) =
      obtained (record { level = level; token = token; sig = u_sig })

  unfoldable pub on_response :
      Option (AccountLevel → m.Hash) → AccountLevel → ℕ → List ℕ → m.Secret → Response → Obtained
  on_response keys level epoch token secret (granted res) =
      if (res.epoch == epoch) && check_member keys level epoch res
      then with_signature level token (unblind m res secret token)
      else failed
  on_response keys level epoch token secret (denied wrong_level) = nothing
  on_response keys level epoch token secret (denied rate_limited) = failed
  on_response keys level epoch token secret (denied forbidden) = failed
  on_response keys level epoch token secret no_response = failed

  unfoldable pub decode_subkey : Option (List ℕ) → Option m.RsaPublic
  decode_subkey none = none
  decode_subkey (some der) = m.from_der der

  module _ (broker : BrokerCalls) (keys : Option (AccountLevel → m.Hash)) where
    unfoldable pub request_with : AccountLevel → ℕ → List ℕ → ℕ → Option m.RsaPublic → Obtained
    request_with level epoch token draw none = failed
    request_with level epoch token draw (some subkey) =
        let blinded : List ℕ × m.Secret = m.blind subkey token draw in
        on_response keys level epoch token blinded.1
          (broker.get_connect_token level epoch blinded.0)

    unfoldable pub request : AccountLevel → ℕ → List ℕ → ℕ → Obtained
    request level epoch token draw =
        request_with level epoch token draw (decode_subkey (broker.get_mizaru_subkey level epoch))

    unfoldable pub or_next : Obtained → Obtained → Obtained
    or_next (obtained t) rest = obtained t
    or_next nothing rest = rest
    or_next failed rest = failed

    -- The loop over the levels, with a drawn token, and draws for its blinding.
    unfoldable pub refresh_epoch : ℕ → List ℕ → (AccountLevel → ℕ) → Obtained
    refresh_epoch epoch token draw =
        or_next (request plus epoch token (draw plus))
          (or_next (request free epoch token (draw free)) nothing)

  abbrev pub TokenDb : Type 0
  TokenDb = List (ℕ × ConnToken)

  unfoldable pub db_remove : ℕ → TokenDb → TokenDb
  db_remove epoch [] = []
  db_remove epoch ((e, t) ∷ db) =
      let rest = db_remove epoch db in if e == epoch then rest else (e, t) ∷ rest

  unfoldable pub plus_expiry : UserInfo → ℕ
  plus_expiry info = elim (info.plus_expires_unix) [ none ↦ 0 | some t ↦ t ]

  unfoldable pub is_plus_token : Option ConnToken → Bool
  is_plus_token none = false
  is_plus_token (some t) = is_plus t.level

  -- A user who has gained plus throws away the free tokens.
  unfoldable pub clean_up : UserInfo → ℕ → TokenDb → TokenDb
  clean_up info epoch db =
      if ltb 0 (plus_expiry info) && not (is_plus_token (find_id epoch db))
      then db_remove (epoch + 1) (db_remove epoch db)
      else db

  -- The table with what an epoch has come to, and whether the refresh goes on.
  unfoldable pub keep : ℕ → TokenDb → Obtained → TokenDb × Bool
  keep epoch db (obtained t) = ((epoch, t) ∷ db, true)
  keep epoch db nothing = (db, true)
  keep epoch db failed = (db, false)

  unfoldable pub ensure_epoch :
      BrokerCalls
      → Option (AccountLevel → m.Hash)
      → ℕ
      → List ℕ
      → (AccountLevel → ℕ)
      → TokenDb
      → TokenDb × Bool
  ensure_epoch broker keys epoch token draw db = elim (find_id epoch db) [
    | some t ↦ (db, true)
    | none ↦ keep epoch db (refresh_epoch broker keys epoch token draw)
  ]

  unfoldable pub refresh_conn_token :
      BrokerCalls
      → Option (AccountLevel → m.Hash)
      → Option UserInfo
      → ℕ
      → (ℕ → List ℕ)
      → (ℕ → AccountLevel → ℕ)
      → TokenDb
      → TokenDb × Bool
  refresh_conn_token broker keys none epoch tokens draw db = (db, false)
  refresh_conn_token broker keys (some info) epoch tokens draw db =
      let first =
        ensure_epoch broker keys epoch (tokens epoch) (draw epoch) (clean_up info epoch db) in
      if first.1
      then ensure_epoch broker keys (epoch + 1) (tokens (epoch + 1)) (draw (epoch + 1)) first.0
      else first
