-- ===== src/Picomux/Ping.antt =====
-- libraries/picomux/src/lib.rs, `ping_loop`: liveness by PING and PONG.
-- Durations are numbers of milliseconds.
use geph.Base.{ℕ, ◌%◌, ◌^◌, ◌≡◌, Option, none, some, length, arith}
use geph.Picomux.Frame.{Frame, cmd_ping, cmd_pong, new_empty}
use geph.Picomux.Mux.{Queues, Mux, Result, ok, err, ping_timed_out, on_frame, enqueue}

pub record LivenessConfig : Type 0 where
  pub ping_interval : ℕ
  pub timeout : ℕ

-- The loop's own configuration, and the latency that `last_latency` reads.
pub record Pinger : Type 0 where
  pub config : Option LivenessConfig
  pub last_ping : Option ℕ

-- What wakes the loop: a new configuration, the interval of the one it has, or the end of the
-- channel of configurations.
pub data Wake : Type 0 where
  configured : LivenessConfig → Wake
  interval_elapsed closed_channel : Wake

-- A round waits for ever, or sends a PING and then goes on or fails.
pub data PingRound : Type 0 where
  waits : PingRound
  pinged : Frame → Result Pinger → PingRound

module _ (q : Queues) where
  unfoldable pub ping_frame : LivenessConfig → Frame
  ping_frame lc = record {
    header = record {
      version = 1;
      command = cmd_ping;
      body_len = length (q.to_json (lc.ping_interval % 2 ^ 32)) % 2 ^ 16;
      stream_id = 0;
    };
    body = q.to_json (lc.ping_interval % 2 ^ 32);
  }

  -- `answer` is the time that the PONG took, or `none` if the timeout passed before it.
  unfoldable pub await_pong : Pinger → LivenessConfig → Option ℕ → PingRound
  unfolding ping_frame
  await_pong p lc none = pinged (ping_frame lc) (err ping_timed_out)
  await_pong p lc (some elapsed) =
      pinged (ping_frame lc) (ok (record { config = some lc; last_ping = some elapsed }))

  unfoldable pub ping_round : Pinger → Wake → Option ℕ → PingRound
  unfolding await_pong
  ping_round p (configured lc) answer = await_pong p lc answer
  ping_round p interval_elapsed answer = elim p.config [
    | none ↦ waits
    | some lc ↦ await_pong p lc answer
  ]
  ping_round p closed_channel answer = waits

  -- The peer answers every PING of this loop by enqueueing one PONG, and changes nothing else.
  pub on_frame-ping_frame :
      (m : Mux q) (lc : LivenessConfig) (now : ℕ)
      → on_frame q m (ping_frame lc) now ≡ ok (enqueue q m (new_empty 0 cmd_pong))
  unfolding ping_frame on_frame
  on_frame-ping_frame m lc now = ground (arith, q.from-to_json (lc.ping_interval % 2 ^ 32))
