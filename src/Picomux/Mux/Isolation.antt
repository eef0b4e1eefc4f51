-- ===== src/Picomux/Mux/Isolation.antt =====
-- An incoming frame touches the buffer and the send window of no stream but its own.
use geph.Base.{ℕ, ◌≡◌, ◌≢◌, ne→==_false}
use geph.Base.Bytes.{from_le_bytes}
use geph.Picomux.Frame.{Frame}
use geph.Picomux.BufferTable.View.{view, view-create_entry, view-send_to, view-incr_send_window}
use geph.Picomux.Mux.Effect.{Effect, opens, credits, buffers, leaves, on_frame-Effect}
use geph.Picomux.Mux.{Queues, Mux, ok, on_frame}

module _ (q : Queues) where
  open q use {packages}

  Effect-view_other :
      {m m' : Mux q} {f : Frame} {now : ℕ} (j : ℕ)
      → f.header.stream_id ≢ j
      → Effect q m f now m'
      → view packages m'.table j ≡ view packages m.table j
  Effect-view_other {m} {f = f} j n (opens c h t l) = rw (
    t,
    view-create_entry packages m.table f.header.stream_id j,
    ne→==_false f.header.stream_id j n,
  )
  Effect-view_other {m} {f = f} j n (credits c t l) = rw (
    t,
    view-incr_send_window packages m.table f.header.stream_id j (from_le_bytes f.body),
    ne→==_false f.header.stream_id j n,
  )
  Effect-view_other {m} {f = f} {now = now} j n (buffers c t l) = rw (
    t,
    view-send_to packages m.table f.header.stream_id j now f,
    ne→==_false f.header.stream_id j n,
  )
  Effect-view_other j n (leaves t l) = rw t

  -- A frame that the receive loop accepts leaves the queued frames and the send window of every
  -- stream but its own as they were.
  pub on_frame-view_other :
      (m m' : Mux q) (f : Frame) (now j : ℕ)
      → on_frame q m f now ≡ ok m'
      → f.header.stream_id ≢ j
      → view packages m'.table j ≡ view packages m.table j
  on_frame-view_other m m' f now j h n =
      Effect-view_other {m = m} {m' = m'} {f = f} {now = now} j n (on_frame-Effect q m m' f now h)
