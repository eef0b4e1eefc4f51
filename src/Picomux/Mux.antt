-- ===== src/Picomux/Mux.antt =====
-- libraries/picomux/src/lib.rs, `picomux_inner`: what the mux does with an open request, with each
-- incoming frame, and with the end of a stream's tasks. Each handler runs between two awaits of its
-- loop, so that the loops interleave handler by handler.
-- The JSON of a PING is serde_json's, and the queues are those of their packages: parameters.
pub mod Effect
pub mod Live
pub mod Isolation
pub mod Tests
use geph.Base.{
  ℕ, ◌+◌, ◌*◌, ◌/◌, ◌%◌, ◌^◌, Bool, true, false, List, [], ◌∷◌, ◌++◌, Option, none, some, length,
  ltb, ◌==◌, ◌||◌, ◌<◌, ◌≡◌, if◌then◌else◌,
}
use geph.Base.Bytes.{from_le_bytes}
use geph.Base.Runtime.{Channel, BoundedChannel, TrySend, accepted, full, closed}
use geph.Picomux.Frame.{
  Frame, Header, new_empty, cmd_syn, cmd_fin, cmd_psh, cmd_nop, cmd_more, cmd_ping, cmd_pong,
}
use geph.Picomux.BufferTable.{
  Packages, BufferTable, contains_id, create_entry, send_to, incr_send_window, drop_receive,
}

-- A stream as its user gets it: the id that its tasks run under, and its metadata.
pub record Stream : Type 0 where
  pub id : ℕ
  pub metadata : List ℕ

pub data MuxError : Type 0 where
  duplicate_syn corrupt_more invalid_ping not_connected : MuxError
  ping_timed_out open_channel_died : MuxError
  invalid_command : ℕ → MuxError

pub data Result {ℓ} (A : Type ℓ) : Type ℓ where
  ok : A → Result A
  err : MuxError → Result A

pub record Queues : Type 1 where
  pub packages : Packages
  pub out : Channel Frame
  pub pong : Channel (Unit {0})
  pub accept : BoundedChannel Stream
  pub to_json : ℕ → List ℕ
  pub from_json : List ℕ → Option ℕ
  pub from-to_json : (n : ℕ) → n < 2 ^ 32 → from_json (to_json n) ≡ some n

remove_id : ℕ → List ℕ → List ℕ
remove_id id [] = []
remove_id id (j ∷ js) = let rest = remove_id id js in if id == j then rest else j ∷ rest

-- `Frame::new_empty` with the metadata for its body, whose length the header keeps modulo 2^16.
unfoldable pub syn_frame : ℕ → List ℕ → Frame
syn_frame stream_id metadata = record {
  header = record {
    version = 1;
    command = cmd_syn;
    body_len = length metadata % 2 ^ 16;
    stream_id = stream_id;
  };
  body = metadata;
}

module _ (q : Queues) where
  open q use {packages, out, pong, accept, to_json, from_json}

  -- `live` lists the ids whose tasks run, newest first: each holds the `BufferReceive` of its id.
  pub record Mux : Type 0 where
    pub table : BufferTable packages
    pub outgoing : out.Chan
    pub pongs : pong.Chan
    pub accepted_streams : accept.Chan
    pub live : List ℕ

  -- `outgoing.enqueue(frame)`
  abbrev pub enqueue : Mux → Frame → Mux
  enqueue m f = record m { outgoing = out.push m.outgoing f }

  unfoldable pub create_stream : Mux → ℕ → List ℕ → Stream × Mux
  create_stream m stream_id metadata = (
    record { id = stream_id; metadata = metadata },
    record m { table = (create_entry packages m.table stream_id).1; live = stream_id ∷ m.live },
  )

  -- The two tasks of a stream have ended: the buffer goes, then the FIN is enqueued.
  unfoldable pub end_stream : Mux → ℕ → Mux
  unfolding remove_id
  end_stream m stream_id =
      enqueue
        (record m {
          table = drop_receive packages m.table (record { id = stream_id; queue_delay = none });
          live = remove_id stream_id m.live;
        })
        (record {
          header = record { version = 1; command = cmd_fin; body_len = 0; stream_id = stream_id };
          body = [];
        })

  -- `repeat_with(|| rng.gen()).find(|key| !contains_id(*key))` on a list of draws.
  unfoldable pub fresh_id : Mux → List ℕ → Option ℕ
  fresh_id m [] = none
  fresh_id m (key ∷ draws) =
      let rest = fresh_id m draws in if contains_id packages m.table key then rest else some key

  -- An open request with its metadata; `none` while the draws hold no unused id.
  unfoldable pub open_request : Mux → List ℕ → List ℕ → Option (Stream × Mux)
  open_request m draws metadata = elim (fresh_id m draws) [
    | none ↦ none
    | some stream_id ↦
        some (create_stream (enqueue m (syn_frame stream_id metadata)) stream_id metadata)
  ]

  -- A stream that the full accept queue turns away is dropped, and its tasks end later on.
  unfoldable pub on_syn : Mux → Frame → Result Mux
  unfolding create_stream
  on_syn m f =
      if contains_id packages m.table f.header.stream_id
      then err duplicate_syn
      else let (stream, m') = create_stream m f.header.stream_id f.body in
        elim (accept.try_send m'.accepted_streams stream) [
          | accepted c ↦ ok (record m' { accepted_streams = c })
          | full ↦ ok m'
          | closed ↦ err not_connected
        ]

  unfoldable pub on_more : Mux → Frame → Result Mux
  on_more m f =
      if length f.body == 2
      then ok (record m {
        table = incr_send_window packages m.table f.header.stream_id (from_le_bytes f.body);
      })
      else err corrupt_more

  unfoldable pub on_ping : Mux → Frame → Result Mux
  on_ping m f = elim (from_json f.body) [
    | none ↦ err invalid_ping
    | some next_ping_in_ms ↦ ok (enqueue m (new_empty 0 cmd_pong))
  ]

  -- One round of the receive loop.
  unfoldable pub on_frame : Mux → Frame → ℕ → Result Mux
  unfolding on_syn on_more on_ping
  on_frame m f now =
      if f.header.command == cmd_syn
      then on_syn m f
      else if f.header.command == cmd_more
      then on_more m f
      else if f.header.command == cmd_psh || f.header.command == cmd_fin
      then ok (record m { table = send_to packages m.table f.header.stream_id f now })
      else if f.header.command == cmd_nop
      then ok m
      else if f.header.command == cmd_ping
      then on_ping m f
      else if f.header.command == cmd_pong
      then ok (record m { pongs = pong.push m.pongs tt })
      else err (invalid_command f.header.command)
