-- ===== src/Picomux/Stream/Link.antt =====
-- One direction of one stream between two muxes: the sender waits for its window, data frames
-- travel in order, the receiver takes them from its buffer and sends credit back in order.
-- The steps are those of `incoming_task`, of the receive loop, and of `outgoing_task` (whose local
-- state no other task touches, so that one round is one step).
use geph.Base.{ℕ, ◌≡◌, true, List, [], ◌∷◌, ◌++◌, Option, none, some}
use geph.Base.Bytes.{from_le_bytes}
use geph.Picomux.Frame.{Frame, cmd_psh}
use geph.Picomux.BufferTable.{
  Packages, BufferReceive, BufferTable, taken, create_entry, send_to, wait_send_window,
  incr_send_window, recv,
}
use geph.Picomux.BufferTable.View.{view}
use geph.Picomux.Stream.{Receiver, round, next, start}

abbrev pub enqueued : List Frame → Option Frame → List Frame
enqueued fs none = fs
enqueued fs (some f) = fs ++ (f ∷ [])

module _ (p : Packages) (id : ℕ) where
  pub record Link : Type 0 where
    pub near : BufferTable p
    pub far : BufferTable p
    pub psh : List Frame
    pub more : List Frame
    pub rx : Receiver
    pub sent : List Frame
    pub delivered : List Frame

  abbrev pub opened : BufferTable p → BufferTable p → Link
  opened t u = record {
    near = (create_entry p t id).1;
    far = (create_entry p u id).1;
    psh = [];
    more = [];
    rx = start;
    sent = [];
    delivered = [];
  }

  -- `elsewhere` is whatever the two muxes do for their other streams.
  pub data Step (l : Link) : Link → Type 0 where
    send :
        (f : Frame) (t : BufferTable p)
        → f.header.command ≡ cmd_psh
        → wait_send_window p l.near id ≡ taken t
        → Step l (record l { near = t; psh = l.psh ++ (f ∷ []); sent = l.sent ++ (f ∷ []) })
    arrive :
        (f : Frame) (fs : List Frame) (now : ℕ)
        → l.psh ≡ f ∷ fs
        → Step l (record l { psh = fs; far = send_to p l.far id f now })
    consume :
        (r r' : BufferReceive) (f : Frame) (t : BufferTable p) (now estimate : ℕ) (rx' : Receiver)
        (m : Option Frame)
        → r.id ≡ id
        → recv p l.far r now ≡ some (f, r', t)
        → round id l.rx f true estimate ≡ next rx' m
        → Step l (record l {
          far = t;
          rx = rx';
          more = enqueued l.more m;
          delivered = l.delivered ++ (f ∷ []);
        })
    credit :
        (m : Frame) (ms : List Frame)
        → l.more ≡ m ∷ ms
        → Step l
            (record l { more = ms; near = incr_send_window p l.near id (from_le_bytes m.body) })
    elsewhere :
        (t u : BufferTable p)
        → view p t id ≡ view p l.near id
        → view p u id ≡ view p l.far id
        → Step l (record l { near = t; far = u })

  pub data Reach (l : Link) : Link → Type 0 where
    here : Reach l l
    then_step : {m n : Link} → Reach l m → Step m n → Reach l n
