-- ===== src/Sosistab/Handshake.antt =====
-- libraries/sillad-sosistab3/src/handshake.rs and `Cookie` of lib.rs: the handshake, its bytes, and
-- how it is sealed with the cookie.
pub mod Wire
use geph.Base.{
  ℕ, ◌+◌, ◌^◌, ◌<◌, ◌≡◌, Bool, List, [], ◌∷◌, ◌++◌, Option, none, some, length, take, drop,
  if◌then◌else◌,
}
use geph.Base.Bytes.{to_be_bytes, from_be_bytes}
use geph.Sosistab.Crypto.{Crypto}
use geph.Sosistab.State.{ObfsParams}

pub record Cookie : Type 0 where
  pub key : List ℕ
  pub params : ObfsParams

-- "server" and "client", in ASCII.
abbrev server_label : List ℕ
server_label = 115 ∷ 101 ∷ 114 ∷ 118 ∷ 101 ∷ 114 ∷ []

abbrev client_label : List ℕ
client_label = 99 ∷ 108 ∷ 105 ∷ 101 ∷ 110 ∷ 116 ∷ []

pub record Handshake : Type 0 where
  pub eph_pk : List ℕ
  pub timestamp : ℕ
  pub padding_len : ℕ
  pub padding_hash : List ℕ
  pub responding_to : List ℕ

-- The widths of the fields.
pub record Fits (h : Handshake) : Type 0 where
  pub eph_pk_fits : length h.eph_pk ≡ 32
  pub timestamp_fits : h.timestamp < 2 ^ 64
  pub padding_len_fits : h.padding_len < 2 ^ 64
  pub padding_hash_fits : length h.padding_hash ≡ 32
  pub responding_to_fits : length h.responding_to ≡ 32

unfoldable pub bytes : Handshake → List ℕ
bytes h =
    h.eph_pk
    ++ (to_be_bytes 8 h.timestamp
        ++ (to_be_bytes 8 h.padding_len ++ (h.padding_hash ++ h.responding_to)))

unfoldable pub from_bytes : List ℕ → Handshake
from_bytes bs = record {
  eph_pk = take 32 bs;
  timestamp = from_be_bytes (take 8 (drop 32 bs));
  padding_len = from_be_bytes (take 8 (drop 40 bs));
  padding_hash = take 32 (drop 48 bs);
  responding_to = take 32 (drop 80 bs);
}

module _ (c : Crypto) where
  -- `Cookie::derive_key`
  unfoldable pub cookie_key : Cookie → Bool → List ℕ
  cookie_key k is_server = c.derive_key (if is_server then server_label else client_label) k.key

  -- `Handshake::encrypt`, with the nonce that it draws.
  unfoldable pub encrypt : Handshake → Cookie → Bool → List ℕ → List ℕ
  encrypt h k is_server nonce =
      let sealed = c.seal (cookie_key k is_server) nonce (bytes h) in
      nonce ++ (sealed.0 ++ sealed.1)

  -- `Handshake::decrypt` of 140 bytes; `none` where the tag does not fit.
  unfoldable pub decrypt : List ℕ → Cookie → Bool → Option Handshake
  decrypt bs k is_server =
      elim (c.unseal (cookie_key k is_server) (take 12 bs) (take 112 (drop 12 bs))
        (take 16 (drop 124 bs))) [ none ↦ none | some plain ↦ some (from_bytes plain) ]
