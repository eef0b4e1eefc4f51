-- ===== src/Broker/Tokens.antt =====
-- binaries/geph5-broker/src/rpc_impl.rs: what the service gives to users: auth tokens, connect tokens and
-- their own data. The secret keys of the two levels are parameters.
pub mod Levels
pub mod Tests
use Prim.Native.String.{String}
use geph.Base.{
  ℕ, ◌≡◌, refl, Bool, true, false, not, ◌&&◌, List, Option, none, some, if◌then◌else◌, get_elem?,
}
use geph.Mizaru.Packages.{Scheme}
use geph.Mizaru.{SecretKey, BlindedSignature, blind_sign}
use geph.Exit.Auth.{AccountLevel, free, plus}
use geph.Broker.Accounts.{
  AuthError, rate_limited, forbidden, wrong_level, Credential, AuthResult, success, auth_error, Db,
  UserInfo, validate_credential, new_auth_token, valid_auth_token, get_user_info, register_secret,
}

unfoldable pub token_or_error : String → Option Db → AuthResult (String × Db)
token_or_error drawn none = auth_error rate_limited
token_or_error drawn (some db) = success (drawn, db)

module _ (verify_password : String → String → Bool) where
  -- The drawn token and the tables with it.
  unfoldable pub get_auth_token : Db → Credential → String → AuthResult (String × Db)
  get_auth_token db credential drawn = elim (validate_credential verify_password db credential) [
    | auth_error e ↦ auth_error e
    | success user_id ↦ token_or_error drawn (new_auth_token db user_id drawn)
  ]

  unfoldable pub get_user_info_by_cred : Db → Credential → AuthResult (Option UserInfo)
  get_user_info_by_cred db credential = elim (validate_credential verify_password db credential) [
    | auth_error forbidden ↦ success none
    | auth_error rate_limited ↦ auth_error rate_limited
    | auth_error wrong_level ↦ auth_error wrong_level
    | success user_id ↦ get_user_info db user_id
  ]

  unfoldable pub upgrade_to_secret :
      Db → Credential → String → Option String → AuthResult (String × Db)
  upgrade_to_secret db credential drawn code =
      elim (validate_credential verify_password db credential) [
        | auth_error e ↦ auth_error e
        | success user_id ↦ elim (register_secret db (some user_id) drawn code) [
          | none ↦ auth_error rate_limited
          | some r ↦ success r
        ]
      ]

unfoldable pub get_user_info_of : Db → String → AuthResult (Option UserInfo)
get_user_info_of db auth_token = elim (valid_auth_token db auth_token) [
  | none ↦ auth_error rate_limited
  | some none ↦ success none
  | some (some (user_id, level)) ↦ get_user_info db user_id
]

unfoldable pub is_plus : AccountLevel → Bool
is_plus plus = true
is_plus free = false

module _ (m : Scheme) (secret_key : AccountLevel → SecretKey m) where
  unfoldable pub der_of : Option m.RsaKey → Option (List ℕ)
  der_of none = none
  der_of (some key) = some (m.to_der (m.to_public_key key))

  -- `none` where the epoch is out of the range of the tree, and the code panics.
  unfoldable pub get_mizaru_subkey : AccountLevel → ℕ → Option (List ℕ)
  get_mizaru_subkey level epoch = der_of (get_elem? (secret_key level).rsa_keys epoch)

  -- A signature, a refusal, or the panic of `blind_sign`.
  pub data ConnectToken : Type 0 where
    signed : BlindedSignature m → ConnectToken
    refused : AuthError → ConnectToken
    crashed : ConnectToken

  unfoldable pub of_signature : Option (BlindedSignature m) → ConnectToken
  of_signature none = crashed
  of_signature (some s) = signed s

  unfoldable pub sign_at : AccountLevel → AccountLevel → ℕ → List ℕ → ConnectToken
  sign_at user_level level epoch blind_token =
      if is_plus level && not (is_plus user_level)
      then refused wrong_level
      else of_signature (blind_sign m (secret_key level) epoch blind_token)

  unfoldable pub get_connect_token : Db → String → AccountLevel → ℕ → List ℕ → ConnectToken
  get_connect_token db auth_token level epoch blind_token = elim (valid_auth_token db auth_token) [
    | none ↦ refused rate_limited
    | some none ↦ refused forbidden
    | some (some (expiry, user_level)) ↦ sign_at user_level level epoch blind_token
  ]
