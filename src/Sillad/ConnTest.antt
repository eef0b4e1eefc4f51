-- ===== src/Sillad/ConnTest.antt =====
-- libraries/sillad-conntest/src/lib.rs: the test of a fresh connection. A side is a function of the bytes
-- that the other side sends; the payloads that the dialer draws are an argument. The log is left out,
-- and the timer, with which the listener lets go of a connection after 30 seconds, is not modelled.
pub mod RoundTrip
pub mod Echoes
pub mod Tests
use geph.Base.{
  ℕ, zero, suc, ◌≤◌, ◌<◌, ◌≡◌, List, [], ◌∷◌, ◌++◌, Option, none, some, length, if◌then◌else◌,
}
use geph.Base.Bytes.{to_be_bytes, from_be_bytes, read_exact, bytes_eq}

-- `conn_handed` is `Ok(pipe)`, or the connection sent to `accept`, with the bytes that are still to
-- be read; `out_of_fuel` is the model's own.
pub data Tested : Type 0 where
  conn_handed : List ℕ → Tested
  invalid_data unexpected_eof out_of_fuel : Tested

pub record Side : Type 0 where
  pub written : List ℕ
  pub outcome : Tested

-- What a side has written before it goes on as another does.
unfoldable pub writing : List ℕ → Side → Side
writing bs s = record { written = bs ++ s.written; outcome = s.outcome }

unfoldable pub stopping : Tested → Side
stopping t = record { written = []; outcome = t }

-- The frame of one ping.
unfoldable pub ping_bytes : List ℕ → List ℕ
ping_bytes buf = to_be_bytes 2 (length buf) ++ buf

unfoldable pub check_echo : List ℕ → List ℕ → Side → Side
check_echo buf echo next = if bytes_eq buf echo then next else stopping invalid_data

-- The loop of `ConnTestDialer::dial`, with one payload for each ping.
unfoldable pub dial : List (List ℕ) → List ℕ → Side
dial [] incoming = writing (0 ∷ 0 ∷ []) (stopping (conn_handed incoming))
dial (buf ∷ bufs) incoming = writing (ping_bytes buf) (elim (read_exact (length buf) incoming) [
  | none ↦ stopping unexpected_eof
  | some (echo, rest) ↦ check_echo buf echo (dial bufs rest)
])

-- The loop of the task for one connection of `ConnTestListener`.
unfoldable pub echo_loop : ℕ → List ℕ → Side
echo_loop zero incoming = stopping out_of_fuel
echo_loop (suc fuel) incoming = elim (read_exact 2 incoming) [
  | none ↦ stopping unexpected_eof
  | some (size_buf, rest) ↦ elim (from_be_bytes size_buf) [
    | zero ↦ stopping (conn_handed rest)
    | suc n ↦ elim (read_exact (suc n) rest) [
      | none ↦ stopping unexpected_eof
      | some (payload, rest') ↦ writing payload (echo_loop fuel rest')
    ]
  ]
]
