-- ===== src/Picomux/Outgoing.antt =====
-- libraries/picomux/src/outgoing.rs: the queue of outgoing frames and the task that writes them. The
-- queue is a channel of its package; the signals only say when to look again.
pub mod Order
pub mod Tests
use geph.Base.{ℕ, Bool, true, false, List, [], ◌∷◌, ◌++◌, Option, none, some, ltb, if◌then◌else◌}
use geph.Base.Runtime.{Channel}
use geph.Picomux.Frame.{Frame}

-- What `send` finds when it looks: it goes on waiting, is done, or returns the writer's error.
pub data Sent : Type 0 where
  waiting done broken : Sent

module _ (queue : Channel Frame) where
  -- `err` says whether the writer has stopped on an error; `written` is what it has written whole.
  pub record Outgoing : Type 0 where
    pub queued : queue.Chan
    pub err : Bool
    pub written : List Frame

  abbrev pub new : Outgoing
  new = record { queued = queue.new; err = false; written = [] }

  unfoldable pub enqueue : Outgoing → Frame → Outgoing
  enqueue o outgoing = record o { queued = queue.push o.queued outgoing }

  unfoldable pub send_ready : Outgoing → Sent
  send_ready o = if o.err then broken else if ltb (queue.len o.queued) 10 then done else waiting

  -- One round of `outgoing_loop`, which waits while the queue is empty, and is over once a write has
  -- failed; `ok` says whether the lower writer takes the frame.
  unfoldable pub write_next : Outgoing → Bool → Outgoing
  write_next o ok =
      let after : Outgoing = elim (queue.pop o.queued) [
        | none ↦ o
        | some (next, rest) ↦
            if ok
            then record o { queued = rest; written = o.written ++ (next ∷ []) }
            else record o { queued = rest; err = true }
      ] in
      if o.err then o else after
