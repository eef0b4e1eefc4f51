-- ===== src/Picomux/Outgoing/Tests.antt =====
-- The outgoing queue at a concrete run.
use geph.Base.{◌≡◌, true, false, List, [], ◌∷◌, ◌++◌}
use geph.Base.Runtime.{Channel, list_channel}
use geph.Picomux.Frame.{Frame, new_empty, cmd_nop, cmd_fin}
use geph.Picomux.Outgoing.{Outgoing, new}
use geph.Picomux.Outgoing.Order.{Event, pushed, write_round, frames_in, run, run-new}

abbrev frames : Channel Frame
frames = list_channel Frame

-- The second write fails.
abbrev events : List Event
events =
    pushed (new_empty 1 cmd_nop)
    ∷ pushed (new_empty 2 cmd_fin)
    ∷ write_round true
    ∷ write_round false
    ∷ []

run-new_example :
    let o : Outgoing frames = run frames (new frames) events in
    (o.err ≡ false → o.written ++ frames.contents o.queued ≡ frames_in events)
    × (later : List Frame) × (o.written ++ later ≡ frames_in events)
run-new_example = run-new frames events
