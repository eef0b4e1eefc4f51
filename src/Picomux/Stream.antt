-- ===== src/Picomux/Stream.antt =====
-- libraries/picomux/src/lib.rs, `outgoing_task` in `create_stream`: the loop of one stream that
-- takes frames from its buffer and hands out credit for more.
-- The bandwidth estimate is a float, and enters as the number of frames that the source computes
-- from it, `(estimate / MSS as f64 / 2.0) as usize`, before the clamp.
pub mod Window
pub mod Link
pub mod Deliver
use geph.Base.{ℕ, ◌+◌, ◌-◌, ◌/◌, ◌%◌, ◌^◌, Bool, Option, none, some, ltb, leb, ◌==◌, if◌then◌else◌}
use geph.Base.Bytes.{to_le_bytes}
use geph.Picomux.Frame.{Frame, new, cmd_fin, cmd_more}
use geph.Picomux.BufferTable.{init_window, max_window}

-- `x.clamp(lo, hi)`
abbrev pub clamp : ℕ → ℕ → ℕ → ℕ
clamp lo hi x = if ltb x lo then lo else if ltb hi x then hi else x

pub record Receiver : Type 0 where
  pub remote_window : ℕ
  pub target_remote_window : ℕ

abbrev pub start : Receiver
start = record { remote_window = init_window; target_remote_window = max_window }

-- One round of the loop ends it (by a FIN, by an error of the local writer, or by an arithmetic
-- overflow, which aborts the process), or goes on, with a frame to enqueue or none.
pub data Round : Type 0 where
  fin_received write_failed overflow : Round
  next : Receiver → Option Frame → Round

abbrev pub min_quantum : ℕ → ℕ
min_quantum target = clamp 1 500 (target / 10)

-- What follows the decrement: the new target, and the MORE frame if enough credit is missing.
unfoldable pub replenish : ℕ → ℕ → ℕ → ℕ → Round
replenish stream_id quantum_floor remote target =
    if leb (remote + quantum_floor) target
    then next (record { remote_window = remote + (target - remote); target_remote_window = target })
        (some (new stream_id cmd_more (to_le_bytes 2 ((target - remote) % 2 ^ 16))))
    else next (record { remote_window = remote; target_remote_window = target }) none

-- `written` says whether the local writer took the body.
unfoldable pub round : ℕ → Receiver → Frame → Bool → ℕ → Round
unfolding replenish
round stream_id rx frame written estimate =
    let quantum_floor = min_quantum rx.target_remote_window in
    let after_write =
      if rx.remote_window == 0
      then overflow
      else replenish stream_id quantum_floor (rx.remote_window - 1)
          (clamp init_window max_window estimate) in
    if frame.header.command == cmd_fin
    then fin_received
    else if written
    then after_write
    else write_failed
