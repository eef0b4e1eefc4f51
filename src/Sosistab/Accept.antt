-- ===== src/Sosistab/Accept.antt =====
-- libraries/sillad-sosistab3/src/listener.rs, the task of one connection in `listen_loop`, and
-- libraries/sillad-sosistab3/src/dialer.rs, `dial`. The bytes that the other end sends are a list,
-- which ends where the lower pipe does; a writer takes all that it is given, and the two tasks are
-- run from the times and random draws that they make. The memory for a padding of any announced
-- length is taken to be there.
pub mod Session
pub mod Replay
pub mod Tests
use geph.Base.{
  ℕ, ℕ_discrete, ◌+◌, ◌-◌, ◌*◌, Bool, true, false, List, [], ◌∷◌, ◌++◌, Option, none, some, length,
  ltb, if◌then◌else◌,
}
use mathlib.Core.List.{List-discrete}
use geph.Base.Bytes.{read_exact}
use geph.Sosistab.Crypto.{Crypto}
use geph.Sosistab.State.{State, new}
use geph.Sosistab.Dedup.{Dedup, insert, contains}
use geph.Sosistab.Handshake.{Cookie, Handshake, encrypt, decrypt}

abbrev pub wait_interval : ℕ
wait_interval = 30

unfoldable pub abs_diff : ℕ → ℕ → ℕ
abs_diff a b = if ltb a b then b - a else a - b

-- Why an end gives a connection up.
pub data Refusal : Type 0 where
  short_read bad_handshake bad_padding_hash bad_timestamp already_seen bad_response : Refusal

-- What one end draws: the secret of its key pair, the nonce of its handshake, and its padding.
pub record Draws : Type 0 where
  pub eph_sk : List ℕ
  pub nonce : List ℕ
  pub padding : List ℕ

-- The other end's handshake as it came in, as it was decrypted, and the bytes behind it.
pub data Received : Type 0 where
  rejected : Refusal → Received
  received : List ℕ → Handshake → List ℕ → Received

-- The result of a task: what it sends last, and the state of the pipe, or why there is none.
pub data Outcome : Type 0 where
  refused : Refusal → Outcome
  established : List ℕ → State → Outcome

abbrev pub bytes_discrete : Discrete (List ℕ)
bytes_discrete = List-discrete ℕ_discrete

module _ (c : Crypto) where
  -- The handshake of an end that answers `responding_to`.
  unfoldable pub my_handshake : Draws → ℕ → List ℕ → Handshake
  my_handshake d timestamp responding_to = record {
    eph_pk = c.public_key d.eph_sk;
    timestamp = timestamp;
    padding_len = length d.padding;
    padding_hash = c.hash d.padding;
    responding_to = responding_to;
  }

  -- The first 140 bytes, decrypted.
  unfoldable pub receive : Cookie → Bool → List ℕ → Received
  receive cookie is_server input = elim (read_exact 140 input) [
    | none ↦ rejected short_read
    | some (bs, rest) ↦ elim (decrypt c bs cookie is_server) [
      | none ↦ rejected bad_handshake
      | some theirs ↦ received bs theirs rest
    ]
  ]

  -- The padding that the handshake announces; `none` where it is as announced.
  unfoldable pub check_padding : Handshake → List ℕ → Option Refusal
  check_padding theirs rest = elim (read_exact theirs.padding_len rest) [
    | none ↦ some short_read
    | some (buff, after) ↦ elim (bytes_discrete (c.hash buff) theirs.padding_hash) [
      | yes e ↦ none
      | no n ↦ some bad_padding_hash
    ]
  ]

  -- The timestamp against the time at which the connection was opened, then the table of
  -- handshakes seen, at the clock `instant`.
  unfoldable pub admit :
      Dedup (List ℕ) → ℕ → ℕ → List ℕ → Handshake → Option Refusal × Dedup (List ℕ)
  admit dedup opened instant hash theirs =
      if ltb wait_interval (abs_diff theirs.timestamp opened)
      then (some bad_timestamp, dedup)
      else if contains bytes_discrete dedup hash
      then (some already_seen, dedup)
      else (none, insert bytes_discrete dedup hash instant)

  -- The listener's answer to a handshake that it has admitted.
  unfoldable pub answer : Cookie → Draws → ℕ → List ℕ → Handshake → Outcome
  answer cookie d opened hash theirs =
      let mine = my_handshake d opened hash in
      established (encrypt c mine cookie true d.nonce ++ d.padding)
        (new c (c.diffie_hellman d.eph_sk theirs.eph_pk) true cookie.params)

  unfoldable pub verified :
      Dedup (List ℕ) → Cookie → Draws → ℕ → ℕ → Received → Outcome × Dedup (List ℕ)
  verified dedup cookie d opened instant (rejected why) = (refused why, dedup)
  verified dedup cookie d opened instant (received bs theirs rest) =
      elim (check_padding theirs rest) [
        | some why ↦ (refused why, dedup)
        | none ↦
            let (admission, dedup') = admit dedup opened instant (c.hash bs) theirs in
            elim admission [
              | some why ↦ (refused why, dedup')
              | none ↦ (answer cookie d opened (c.hash bs) theirs, dedup')
            ]
      ]

  -- The listener's task on a connection, with the table that all of them share.
  unfoldable pub accept :
      Dedup (List ℕ) → Cookie → Draws → ℕ → ℕ → List ℕ → Outcome × Dedup (List ℕ)
  accept dedup cookie d opened instant input =
      verified dedup cookie d opened instant (receive cookie false input)

  -- The dialer's handshake, and all that it sends at first.
  unfoldable pub hello : Cookie → Draws → ℕ → List ℕ
  hello cookie d timestamp = encrypt c (my_handshake d timestamp (c.hash [])) cookie false d.nonce

  unfoldable pub dial_send : Cookie → Draws → ℕ → List ℕ
  dial_send cookie d timestamp = hello cookie d timestamp ++ d.padding

  unfoldable pub confirmed : Cookie → Draws → List ℕ → Received → Outcome
  confirmed cookie d sent (rejected why) = refused why
  confirmed cookie d sent (received bs theirs rest) =
      elim (bytes_discrete theirs.responding_to (c.hash sent)) [
        | no n ↦ refused bad_response
        | yes e ↦ elim (check_padding theirs rest) [
          | some why ↦ refused why
          | none ↦
              established [] (new c (c.diffie_hellman d.eph_sk theirs.eph_pk) false cookie.params)
        ]
      ]

  -- What `dial` does with the answer to it.
  unfoldable pub dial : Cookie → Draws → ℕ → List ℕ → Outcome
  dial cookie d timestamp input =
      confirmed cookie d (hello cookie d timestamp) (receive cookie true input)
