-- ===== src/Picomux/BufferTable.antt =====
-- libraries/picomux/src/buffer_table.rs: the buffers and send windows of the streams of one mux.
-- The map (dashmap), the channels (async_channel) and the semaphores (futures_intrusive) are
-- parameters. The two ends of a channel are one queue, which stands in the table under the
-- stream's id for as long as its `BufferReceive` lives. Times are numbers of one clock.
pub mod View
use geph.Base.{ℕ, ◌+◌, ◌-◌, ◌*◌, Bool, true, false, List, Option, none, some, ltb, if◌then◌else◌}
use geph.Base.Runtime.{Channel, Semaphore, Table}
use geph.Picomux.Frame.{Frame}

pub record Packages : Type 1 where
  pub chan : Channel (Frame × ℕ)
  pub sem : Semaphore
  pub table : Table (chan.Chan × sem.Sem)

abbrev pub init_window : ℕ
init_window = 10

abbrev pub max_window : ℕ
max_window = 1500

-- The receiving end of a stream's buffer, beside the queue in the table.
pub record BufferReceive : Type 0 where
  pub id : ℕ
  pub queue_delay : Option ℕ

-- What waiting for the send window comes to: the stream is unknown and the call never returns,
-- there is no permit yet, or one permit is taken.
pub data Window {ℓ} (M : Type ℓ) : Type ℓ where
  never : Window M
  blocked : Window M
  taken : M → Window M

module _ (p : Packages) where
  open p use {chan, sem, table}

  abbrev pub BufferTable : Type 0
  BufferTable = table.Map

  abbrev Entry : Type 0
  Entry = chan.Chan × sem.Sem

  unfoldable pub contains_id : BufferTable → ℕ → Bool
  contains_id t id = elim (table.get id t) [ none ↦ false | some _ ↦ true ]

  unfoldable pub create_entry : BufferTable → ℕ → BufferReceive × BufferTable
  create_entry t stream_id = (
    record { id = stream_id; queue_delay = none },
    table.insert stream_id (chan.new, sem.new init_window) t,
  )

  -- A buffer of more than `2 * max_window` frames drops what comes; an unknown stream ignores it.
  unfoldable pub send_to : BufferTable → ℕ → Frame → ℕ → BufferTable
  send_to t stream_id frame now = elim (table.get stream_id t) [
    | none ↦ t
    | some (queue, window) ↦
        if ltb (max_window * 2) (chan.len queue)
        then t
        else table.insert stream_id (chan.push queue (frame, now), window) t
  ]

  unfoldable pub wait_send_window : BufferTable → ℕ → Window BufferTable
  wait_send_window t stream_id = elim (table.get stream_id t) [
    | none ↦ never
    | some (queue, window) ↦ elim (sem.acquire window) [
      | none ↦ blocked
      | some window' ↦ taken (table.insert stream_id (queue, window') t)
    ]
  ]

  unfoldable pub incr_send_window : BufferTable → ℕ → ℕ → BufferTable
  incr_send_window t stream_id amount = elim (table.get stream_id t) [
    | none ↦ t
    | some (queue, window) ↦ table.insert stream_id (queue, sem.release window amount) t
  ]

  -- The oldest frame, with the time that it spent in the queue; `none` while there is no frame.
  unfoldable pub recv :
      BufferTable → BufferReceive → ℕ → Option (Frame × BufferReceive × BufferTable)
  recv t r now = elim (table.get r.id t) [
    | none ↦ none
    | some (queue, window) ↦ elim (chan.pop queue) [
      | none ↦ none
      | some ((frame, insert_time), queue') ↦ some (
        frame,
        record r { queue_delay = some (now - insert_time) },
        table.insert r.id (queue', window) t,
      )
    ]
  ]

  -- `Drop for BufferReceive`
  unfoldable pub drop_receive : BufferTable → BufferReceive → BufferTable
  drop_receive t r = table.remove r.id t
