-- ===== src/Sosistab/Pipe.antt =====
-- libraries/sillad-sosistab3/src/lib.rs, `SosistabPipe`: its buffers, and its reads and writes over
-- a lower pipe, whose answers enter as a list, one for each time that it is polled.
pub mod Drains
pub mod Reads
pub mod Writes
pub mod Tests
use geph.Base.{
  ℕ, zero, suc, ◌+◌, ◌≡◌, Bool, true, false, ◌||◌, not, List, [], ◌∷◌, ◌++◌, Option, none, some,
  length, take, drop, if◌then◌else◌,
}
use geph.Sosistab.Crypto.{Crypto}
use geph.Sosistab.State.{
  State, Kind, invalid_data, broken_pipe, would_block, Decrypted, failed, decrypted, decrypt,
  encrypt,
}

pub record SosistabPipe : Type 0 where
  pub state : State
  pub read_buf : List ℕ
  pub read_closed : Bool
  pub raw_read_buf : List ℕ
  pub to_write_buf : List ℕ

abbrev pub open_pipe : State → SosistabPipe
open_pipe s = record {
  state = s;
  read_buf = [];
  read_closed = false;
  raw_read_buf = [];
  to_write_buf = [];
}

abbrev pub is_empty : List ℕ → Bool
is_empty [] = true
is_empty (b ∷ bs) = false

-- What the loop of decryptions leaves: whether it met a broken stream, the state, the raw bytes
-- that are left, and the decrypted data.
pub record Drained : Type 0 where
  pub broken : Bool
  pub state : State
  pub raw : List ℕ
  pub buf : List ℕ

abbrev pub stopped_by : Kind → State → List ℕ → List ℕ → Drained
stopped_by broken_pipe s raw buf = record { broken = true; state = s; raw = raw; buf = buf }
stopped_by _ s raw buf = record { broken = false; state = s; raw = raw; buf = buf }

-- A poll of the lower pipe: not ready, an error, or bytes (none at its end).
pub data Poll : Type 0 where
  pending error : Poll
  ready : List ℕ → Poll

-- A poll of the lower pipe's writer: not ready, an error, or a number of bytes taken.
pub data Sink : Type 0 where
  busy failing : Sink
  took : ℕ → Sink

-- A write is pending, fails, panics in `encrypt`, or takes all of the caller's buffer.
pub data Written : Type 0 where
  not_yet write_error panicked : Written
  wrote : ℕ → Written

-- The loop over `to_write_buf`; also the bytes that it handed down.
unfoldable pub write_loop : ℕ → List ℕ → List Sink → Written × List ℕ × List ℕ
write_loop n out [] = (not_yet, [], out)
write_loop n out (busy ∷ sinks) = (not_yet, [], out)
write_loop n out (failing ∷ sinks) = (write_error, [], out)
write_loop n out (took k ∷ sinks) =
    let (r, passed, left) = write_loop n (drop k out) sinks in
    if is_empty (drop k out) then (wrote n, take k out, []) else (r, take k out ++ passed, left)

-- A flush is pending, fails, or goes on to flush the lower pipe.
pub data Flushed : Type 0 where
  flush_pending flush_error flush_lower : Flushed

-- `poll_flush`: one write of what is left; also the bytes that it handed down.
unfoldable pub poll_flush : SosistabPipe → Sink → Flushed × List ℕ × SosistabPipe
poll_flush p busy = if is_empty p.to_write_buf then (flush_lower, [], p) else (flush_pending, [], p)
poll_flush p failing =
    if is_empty p.to_write_buf then (flush_lower, [], p) else (flush_error, [], p)
poll_flush p (took k) =
    let left = drop k p.to_write_buf in
    if is_empty p.to_write_buf then (flush_lower, [], p) else (
      if is_empty left then flush_lower else flush_pending,
      take k p.to_write_buf,
      record p { to_write_buf = left },
    )

module _ (c : Crypto) where
  -- As many hunks as there are, on fuel: each takes at least one byte.
  unfoldable pub drain : ℕ → State → List ℕ → List ℕ → Drained
  drain zero s raw buf = record { broken = false; state = s; raw = raw; buf = buf }
  drain (suc fuel) s raw buf = elim (decrypt c s raw) [
    | failed kind ↦ stopped_by kind s raw buf
    | decrypted n plain s' ↦ drain fuel s' (drop n raw) (buf ++ plain)
  ]

  -- What `poll_read` does with bytes from below.
  unfoldable pub feed : SosistabPipe → List ℕ → Bool × SosistabPipe
  feed p bs =
      let raw = p.raw_read_buf ++ bs in
      let d = drain (suc (length raw)) p.state raw p.read_buf in
      (d.broken, record p { state = d.state; raw_read_buf = d.raw; read_buf = d.buf })

  abbrev pub can_serve : SosistabPipe → Bool
  can_serve p = not (is_empty p.read_buf) || p.read_closed

  abbrev pub serve : SosistabPipe → ℕ → Poll × SosistabPipe
  serve p room = (ready (take room p.read_buf), record p { read_buf = drop room p.read_buf })

  -- `poll_read` into `room` bytes, on the answers of the lower pipe, as far as they are wanted.
  unfoldable pub poll_read : SosistabPipe → ℕ → List Poll → Poll × SosistabPipe
  poll_read p room [] = if can_serve p then serve p room else (pending, p)
  poll_read p room (pending ∷ polls) = if can_serve p then serve p room else (pending, p)
  poll_read p room (error ∷ polls) = if can_serve p then serve p room else (error, p)
  poll_read p room (ready [] ∷ polls) =
      if can_serve p then serve p room else serve (record p { read_closed = true }) room
  poll_read p room (ready (b ∷ bs) ∷ polls) =
      let (broken, p') = feed p (b ∷ bs) in
      let later = poll_read p' room polls in
      if can_serve p then serve p room else if broken then (error, p') else later

  -- What is to be written: what is left of an earlier call, or else the caller's bytes, encrypted.
  unfoldable pub to_write : SosistabPipe → List ℕ → ℕ → Option (List ℕ × State)
  to_write p buf random =
      if is_empty p.to_write_buf
      then encrypt c p.state buf p.to_write_buf random
      else some (p.to_write_buf, p.state)

  unfoldable pub poll_write :
      SosistabPipe → List ℕ → ℕ → List Sink → Written × List ℕ × SosistabPipe
  poll_write p buf random sinks = elim (to_write p buf random) [
    | none ↦ (panicked, [], p)
    | some (out, s) ↦
        let (r, passed, left) = write_loop (length buf) out sinks in
        (r, passed, record p { state = s; to_write_buf = left })
  ]
