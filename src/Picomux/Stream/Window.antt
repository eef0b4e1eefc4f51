-- ===== src/Picomux/Stream/Window.antt =====
-- The credit that the loop of a stream keeps for its peer stays within bounds, whatever the peer
-- sends and however the bandwidth estimate moves.
use geph.Base.{
  ℕ, ◌≤◌, ◌<◌, ◌≡◌, ◌⊎◌, inl, Bool, List, [], ◌∷◌, refl, ◌≢◌, none, some, ◌+◌, Option, arith,
}
use geph.Base.Bytes.{from_le_bytes}
use geph.Picomux.Frame.{Frame, new}
use geph.Picomux.BufferTable.{init_window, max_window}
use geph.Picomux.Stream.{Receiver, Round, fin_received, write_failed, overflow, next, start, round}

-- The lower the credit is, the lower is the target that the last round left it at.
pub record InBounds (rx : Receiver) : Type 0 where
  pub floor :
      (9 ≤ rx.remote_window)
      ⊎ ((rx.remote_window ≡ 8) × (rx.target_remote_window < 158))
      ⊎ ((rx.remote_window ≡ 7) × (rx.target_remote_window < 22))
  pub credit_le : rx.remote_window ≤ max_window
  pub target_ge : init_window ≤ rx.target_remote_window
  pub target_le : rx.target_remote_window ≤ max_window

pub start-InBounds : InBounds start
start-InBounds = record {
  floor = inl (omega arith);
  credit_le = omega arith;
  target_ge = omega arith;
  target_le = omega arith;
}

pub round-InBounds :
    (stream_id : ℕ) (rx rx' : Receiver) (frame : Frame) (written : Bool) (estimate : ℕ)
    (more : Option Frame)
    → InBounds rx
    → round stream_id rx frame written estimate ≡ next rx' more
    → InBounds rx'
unfolding round
round-InBounds stream_id rx rx' frame written estimate more v h = ground arith

-- The rounds of one stream, one for each frame with the writer's answer and the estimate; `next`
-- with the last credit when the frames run out.
unfoldable pub run : ℕ → Receiver → List (Frame × Bool × ℕ) → Round
run stream_id rx [] = next rx none
run stream_id rx ((frame, written, estimate) ∷ inputs) =
    elim (round stream_id rx frame written estimate) [
      | fin_received ↦ fin_received
      | write_failed ↦ write_failed
      | overflow ↦ overflow
      | next rx' more ↦ run stream_id rx' inputs
    ]

round-ne-overflow :
    (stream_id : ℕ) (rx : Receiver) (frame : Frame) (written : Bool) (estimate : ℕ)
    → InBounds rx
    → round stream_id rx frame written estimate ≢ overflow
unfolding round
round-ne-overflow stream_id rx frame written estimate v = ground arith

run_from-ne-overflow :
    (stream_id : ℕ) (rx : Receiver) (inputs : List (Frame × Bool × ℕ))
    → InBounds rx
    → run stream_id rx inputs ≢ overflow
unfolding run
run_from-ne-overflow stream_id rx [] v = λ h. cc
run_from-ne-overflow stream_id rx ((frame, written, estimate) ∷ inputs) v =
    go (round stream_id rx frame written estimate) refl
      (λ rx'. run_from-ne-overflow stream_id rx' inputs)
  where
    go :
        (o : Round)
        → round stream_id rx frame written estimate ≡ o
        → ((rx' : Receiver) → InBounds rx' → run stream_id rx' inputs ≢ overflow)
        → run stream_id rx ((frame, written, estimate) ∷ inputs) ≢ overflow
    go fin_received e later = rw (e, run) (λ h. cc)
    go write_failed e later = rw (e, run) (λ h. cc)
    go overflow e later = absurd (round-ne-overflow stream_id rx frame written estimate v e)
    go (next rx' more) e later =
        rw (e, run) (later rx' (round-InBounds stream_id rx rx' frame written estimate more v e))

-- However long a stream lives, whatever frames its peer sends and whatever the estimates are, the
-- loop never decrements a credit of 0, which would abort the process.
pub run-ne-overflow :
    (stream_id : ℕ) (inputs : List (Frame × Bool × ℕ)) → run stream_id start inputs ≢ overflow
run-ne-overflow stream_id inputs = run_from-ne-overflow stream_id start inputs start-InBounds

-- What a MORE frame gives its receiver.
abbrev pub credit_of : Option Frame → ℕ
credit_of none = 0
credit_of (some f) = from_le_bytes f.body

-- A round that goes on takes one credit for the frame and adds what its MORE frame announces,
-- which survives the 16 bits of the message.
pub round-credit :
    (stream_id : ℕ) (rx rx' : Receiver) (frame : Frame) (written : Bool) (estimate : ℕ)
    (more : Option Frame)
    → InBounds rx
    → round stream_id rx frame written estimate ≡ next rx' more
    → rx'.remote_window + 1 ≡ rx.remote_window + credit_of more
unfolding round new
round-credit stream_id rx rx' frame written estimate more v h = ground arith
