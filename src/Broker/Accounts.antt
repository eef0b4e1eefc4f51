-- ===== src/Broker/Accounts.antt =====
-- binaries/geph5-broker/src/auth.rs and puzzle.rs: the users of the broker, over the tables that the
-- queries name. A table is its rows, in the order in which they were inserted; a query of one row takes
-- the first that matches, and fails when the database is not reachable. The caches before some of the
-- queries are left out: what is modelled is a call that finds nothing in them. Password hashes and the
-- payment service are parameters, and what is drawn is an argument.
pub mod Register
use Prim.Native.String.{String}
use text.Mathlib.Text.{◌==◌}
use geph.Base.{
  ℕ, suc, ◌≡◌, refl, Bool, true, false, List, [], ◌∷◌, ◌++◌, Option, none, some, if◌then◌else◌, leb,
  ◌&&◌,
}
use geph.Exit.Auth.{AccountLevel, free, plus}

pub data AuthError : Type 0 where
  rate_limited forbidden wrong_level : AuthError

pub data Credential : Type 0 where
  test_dummy : Credential
  legacy_username_password : String → String → Credential
  secret_credential : String → Credential

pub data AuthResult (A : Type 0) : Type 0 where
  success : A → AuthResult A
  auth_error : AuthError → AuthResult A

pub record PasswordRow : Type 0 where
  pub user_id : ℕ
  pub pwdhash : String

pub record Subscription : Type 0 where
  pub expires : ℕ
  pub recurring : Bool

pub record UserInfo : Type 0 where
  pub user_id : ℕ
  pub plus_expires_unix : Option ℕ
  pub recurring : Bool

pub record Db : Type 0 where
  pub reachable : Bool
  pub next_id : ℕ
  pub auth_secret : List (String × ℕ)
  pub auth_password : List (String × PasswordRow)
  pub auth_tokens : List (String × ℕ)
  pub subscriptions : List (ℕ × Subscription)
  pub free_vouchers : List (ℕ × String)
  pub used_puzzles : List (String × ℕ)

module _ {V : Type 0} where
  unfoldable pub find_text : String → List (String × V) → Option V
  find_text k [] = none
  find_text k ((j, v) ∷ rows) = let rest = find_text k rows in if j == k then some v else rest

  unfoldable pub find_id : ℕ → List (ℕ × V) → Option V
  find_id k [] = none
  find_id k ((j, v) ∷ rows) =
      let rest = find_id k rows in if leb j k && leb k j then some v else rest

-- The secret of a user: `auth_secret` is searched by its other column.
unfoldable pub secret_of : ℕ → List (String × ℕ) → Option String
secret_of k [] = none
secret_of k ((s, j) ∷ rows) =
    let rest = secret_of k rows in if leb j k && leb k j then some s else rest

unfoldable pub or_forbidden : {A : Type 0} → Option A → AuthResult A
or_forbidden none = auth_error forbidden
or_forbidden (some a) = success a

unfoldable pub validate_secret : Db → String → AuthResult ℕ
validate_secret db secret =
    if db.reachable then or_forbidden (find_text secret db.auth_secret) else auth_error rate_limited

-- Whether the hash parses and the password is its own.
module _ (verify_password : String → String → Bool) where
  unfoldable pub check_password : String → Option PasswordRow → AuthResult ℕ
  check_password password none = auth_error forbidden
  check_password password (some row) =
      if verify_password password row.pwdhash then success row.user_id else auth_error forbidden

  unfoldable pub validate_username_pwd : Db → String → String → AuthResult ℕ
  validate_username_pwd db username password =
      if db.reachable
      then check_password password (find_text username db.auth_password)
      else auth_error rate_limited

  unfoldable pub validate_credential : Db → Credential → AuthResult ℕ
  validate_credential db test_dummy = auth_error forbidden
  validate_credential db (legacy_username_password username password) =
      validate_username_pwd db username password
  validate_credential db (secret_credential s) = validate_secret db s

-- `none` is the database's error.
unfoldable pub new_auth_token : Db → ℕ → String → Option Db
new_auth_token db user_id token =
    if db.reachable
    then some (record db { auth_tokens = db.auth_tokens ++ ((token, user_id) ∷ []) })
    else none

unfoldable pub level_of : Option Subscription → AccountLevel
level_of none = free
level_of (some s) = plus

unfoldable pub with_level : Db → Option ℕ → Option (ℕ × AccountLevel)
with_level db none = none
with_level db (some user_id) = some (user_id, level_of (find_id user_id db.subscriptions))

-- The outer `none` is an error, the inner one an unknown token.
unfoldable pub valid_auth_token : Db → String → Option (Option (ℕ × AccountLevel))
valid_auth_token db token =
    if db.reachable then some (with_level db (find_text token db.auth_tokens)) else none

unfoldable pub user_info : ℕ → Option Subscription → UserInfo
user_info user_id none = record { user_id = user_id; plus_expires_unix = none; recurring = false }
user_info user_id (some s) = record {
  user_id = user_id;
  plus_expires_unix = some s.expires;
  recurring = s.recurring;
}

unfoldable pub get_user_info : Db → ℕ → AuthResult (Option UserInfo)
get_user_info db user_id =
    if db.reachable
    then success (some (user_info user_id (find_id user_id db.subscriptions)))
    else auth_error rate_limited

-- `register_secret`, with the secret and the voucher's code that it draws or is given, if it gets a
-- code. A transaction that fails leaves the tables as they were.
unfoldable pub add_secret : Db → ℕ → String → Option String → Option (String × Db)
add_secret db user_id drawn none = none
add_secret db user_id drawn (some code) = some (
  drawn,
  record db {
    auth_secret = db.auth_secret ++ ((drawn, user_id) ∷ []);
    free_vouchers = db.free_vouchers ++ ((user_id, code) ∷ []);
  },
)

unfoldable pub secret_or_new :
    Db → ℕ → String → Option String → Option String → Option (String × Db)
secret_or_new db user_id drawn code (some existing) = some (existing, db)
secret_or_new db user_id drawn code none = add_secret db user_id drawn code

unfoldable pub register_for : Db → ℕ → String → Option String → Option (String × Db)
register_for db user_id drawn code =
    secret_or_new db user_id drawn code (secret_of user_id db.auth_secret)

unfoldable pub register_secret : Db → Option ℕ → String → Option String → Option (String × Db)
register_secret db user drawn code =
    if db.reachable
    then elim user [
      | none ↦ register_for (record db { next_id = suc db.next_id }) db.next_id drawn code
      | some user_id ↦ register_for db user_id drawn code
    ]
    else none

-- The proof of work is a package's; a puzzle that is in `used_puzzles` cannot be inserted again.
module _ (solves : String → String → Bool) where
  unfoldable pub spend_puzzle : Db → String → Option ℕ → Option Db
  spend_puzzle db puzzle (some used) = none
  spend_puzzle db puzzle none =
      some (record db { used_puzzles = db.used_puzzles ++ ((puzzle, 0) ∷ []) })

  unfoldable pub verify_puzzle_solution : Db → String → String → Option Db
  verify_puzzle_solution db puzzle solution =
      if solves puzzle solution && db.reachable
      then spend_puzzle db puzzle (find_text puzzle db.used_puzzles)
      else none

  -- The tables afterwards, and the secret unless the call fails.
  unfoldable pub register_user_secret :
      Db → String → String → String → Option String → Option String × Db
  register_user_secret db puzzle solution drawn code =
      elim (verify_puzzle_solution db puzzle solution) [
        | none ↦ (none, db)
        | some db' ↦ elim (register_secret db' none drawn code) [
          | none ↦ (none, db')
          | some (secret, db'') ↦ (some secret, db'')
        ]
      ]
