-- ===== src/Sosistab/State.antt =====
-- libraries/sillad-sosistab3/src/state.rs: the keys and counters of a connection, and how a hunk of
-- data is encrypted, padded and decrypted. The 64-bit counters are numbers: to wrap one, a
-- connection would have to carry 2^63 hunks.
pub mod Padding
pub mod Parts
pub mod RoundTrip
use geph.Base.{
  ℕ, zero, suc, ◌+◌, ◌-◌, ◌*◌, ◌%◌, ◌^◌, ◌≡◌, Bool, true, false, ◌&&◌, List, [], ◌∷◌, ◌++◌, Option,
  none, some, length, take, drop, replicate, ltb, leb, ◌==◌, if◌then◌else◌,
}
use geph.Base.Bytes.{to_le_bytes, from_le_bytes}
use geph.Sosistab.Crypto.{Crypto}

pub record ObfsParams : Type 0 where
  pub obfs_lengths : Bool
  pub obfs_timing : Bool

pub record State : Type 0 where
  pub shared_secret : List ℕ
  pub send_aead : List ℕ
  pub send_nonce : ℕ
  pub send_buf : List ℕ
  pub recv_aead : List ℕ
  pub recv_nonce : ℕ
  pub obfs_params : ObfsParams

-- The kinds of error, by which `poll_read` tells a broken stream from one that wants more bytes.
pub data Kind : Type 0 where
  invalid_data broken_pipe would_block : Kind

pub data Decrypted : Type 0 where
  failed : Kind → Decrypted
  decrypted : ℕ → List ℕ → State → Decrypted

-- "up" and "dn", in ASCII.
abbrev pub up_label : List ℕ
up_label = 117 ∷ 112 ∷ []

abbrev pub dn_label : List ℕ
dn_label = 100 ∷ 110 ∷ []

-- Eight bytes of the counter, padded to twelve.
unfoldable pub nonce_bytes : ℕ → List ℕ
nonce_bytes n = to_le_bytes 8 n ++ replicate 4 0

-- `bts.len() as i32`, negated for padding, in two's complement.
unfoldable pub length_word : ℕ → Bool → ℕ
length_word n is_padding = if is_padding then (2 ^ 32 - n % 2 ^ 32) % 2 ^ 32 else n % 2 ^ 32

unfoldable pub length_bytes : ℕ → Bool → List ℕ
length_bytes n is_padding = to_le_bytes 4 (length_word n is_padding)

-- `i32::unsigned_abs` and `length > 0` of such a word.
unfoldable pub word_abs : ℕ → ℕ
word_abs w = if ltb w (2 ^ 31) then w else 2 ^ 32 - w

unfoldable pub word_positive : ℕ → Bool
word_positive w = ltb 0 w && ltb w (2 ^ 31)

-- `next_power_of_two`, by doubling from `p`.
pub power_from : ℕ → ℕ → ℕ → ℕ
power_from zero p n = p
power_from (suc fuel) p n = let next = power_from fuel (2 * p) n in if leb n p then p else next

unfoldable pub next_power_of_two : ℕ → ℕ
next_power_of_two n = power_from 64 1 n

abbrev pub max_padding : ℕ
max_padding = 2000

-- The zeroes that padding is cut from.
pub lala : List ℕ
lala = replicate max_padding 0

module _ (c : Crypto) where
  unfoldable pub new : List ℕ → Bool → ObfsParams → State
  new ss is_server obfs_params = record {
    shared_secret = ss;
    send_aead = c.derive_key (if is_server then dn_label else up_label) ss;
    send_nonce = 0;
    send_buf = [];
    recv_aead = c.derive_key (if is_server then up_label else dn_label) ss;
    recv_nonce = 0;
    obfs_params = obfs_params;
  }

  -- The sealed length and its tag, then the sealed body and its tag.
  unfoldable pub hunk : State → List ℕ → Bool → List ℕ
  hunk s bts is_padding =
      let sealed_length =
        c.seal s.send_aead (nonce_bytes s.send_nonce) (length_bytes (length bts) is_padding) in
      let sealed_body = c.seal s.send_aead (nonce_bytes (s.send_nonce + 1)) bts in
      sealed_length.0 ++ (sealed_length.1 ++ (sealed_body.0 ++ sealed_body.1))

  -- The state behind a hunk.
  unfoldable pub sealed : State → List ℕ → State
  sealed s bts = record s {
    send_nonce = s.send_nonce + 2;
    send_buf = (c.seal s.send_aead (nonce_bytes (s.send_nonce + 1)) bts).0;
  }

  -- `encrypt_inner`: the number of bytes that it appends, the output, and the state.
  unfoldable pub encrypt_inner : State → List ℕ → List ℕ → Bool → ℕ × List ℕ × State
  encrypt_inner s bts output is_padding =
      (length (hunk s bts is_padding), output ++ hunk s bts is_padding, sealed s bts)

  -- What follows the hunk of data. `none` is a panic: of a subtraction below 0, of a slice of
  -- `lala` beyond its end, or of the assertion on the padded length.
  unfoldable pub pad : State → List ℕ → ℕ → ℕ → ℕ → Option (List ℕ × State)
  pad s output orig_len overhead random =
      let desired_len = next_power_of_two (orig_len + overhead) + random in
      let padding_inner_len = desired_len - orig_len - overhead in
      let (padding_len, output', s') = encrypt_inner s (take padding_inner_len lala) output true in
      if ltb desired_len (orig_len + overhead)
      then none
      else if ltb max_padding padding_inner_len
      then none
      else if orig_len + padding_len == desired_len
      then some (output', s')
      else none

  -- `random` is the draw `gen_range(0..10)`.
  unfoldable pub encrypt : State → List ℕ → List ℕ → ℕ → Option (List ℕ × State)
  encrypt s bts output random =
      let (orig_len, output', s') = encrypt_inner s bts output false in
      let overhead = orig_len - length bts in
      if s.obfs_params.obfs_lengths && ltb orig_len 2000
      then pad s' output' orig_len overhead random
      else some (output', s')

  -- The body behind a length that was authentic.
  unfoldable pub decrypt_body : State → List ℕ → ℕ → Decrypted
  decrypt_body s rest word =
      let actual_length = word_abs word in
      let body =
        c.unseal s.recv_aead (nonce_bytes (s.recv_nonce + 1)) (take actual_length rest)
          (take 16 (drop actual_length rest)) in
      if ltb (length rest) (actual_length + 16) then failed would_block else elim body [
        | none ↦ failed broken_pipe
        | some plain ↦
            decrypted (4 + 16 + 16 + length plain) (if word_positive word then plain else [])
              (record s { recv_nonce = s.recv_nonce + 2 })
      ]

  -- `decrypt`: the number of bytes that it takes, what it appends to the output, and the state.
  unfoldable pub decrypt : State → List ℕ → Decrypted
  decrypt s bts =
      let opened =
        c.unseal s.recv_aead (nonce_bytes s.recv_nonce) (take 4 bts) (take 16 (drop 4 bts)) in
      if ltb (length bts) 24 then failed invalid_data else elim opened [
        | none ↦ failed broken_pipe
        | some word ↦ decrypt_body s (drop 16 (drop 4 bts)) (from_le_bytes word)
      ]
