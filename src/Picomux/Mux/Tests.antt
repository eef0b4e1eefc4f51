-- ===== src/Picomux/Mux/Tests.antt =====
-- Runs of the mux over lists, and the theorems of its modules at concrete inputs.
use geph.Base.{
  ℕ, ◌+◌, ◌^◌, ◌≡◌, ◌≤◌, ◌<◌, refl, sym, ap, ◌≢◌, true, false, List, [], ◌∷◌, ◌++◌, Option, none,
  some, arith, length,
}
use geph.Base.Bytes.{to_le_bytes, from_le_bytes, from-to_le_bytes}
use geph.Base.Runtime.{assoc_table, list_channel, counter, bounded_list}
use geph.Picomux.Frame.{Frame, new, cmd_psh, cmd_syn, new_empty}
use geph.Picomux.BufferTable.{
  Packages, BufferTable, taken, create_entry, contains_id, wait_send_window,
}
use geph.Picomux.BufferTable.View.{Buffer, view}
use geph.Picomux.Stream.{start, round, next, overflow}
use geph.Picomux.Stream.Window.{run, run-ne-overflow}
use geph.Picomux.Stream.Link.{opened, Reach, here, then_step, send}
use geph.Picomux.Stream.Deliver.{deliver_in_order, send_when_quiet}
use geph.Picomux.Mux.{Queues, Mux, on_frame, create_stream}
use geph.Picomux.Mux.Isolation.{on_frame-view_other}
use geph.Picomux.Mux.Live
use geph.Picomux.Mux.Live.{IsLive, Reach-IsLive}

abbrev queued_of : Option Buffer → List Frame
queued_of none = []
queued_of (some b) = b.queued

abbrev packages : Packages
packages = record {
  chan = list_channel (Frame × ℕ);
  sem = counter;
  table = assoc_table (List (Frame × ℕ) × ℕ);
}

-- A code of the interval by its four bytes stands for the JSON.
abbrev decode : List ℕ → Option ℕ
decode bs = some (from_le_bytes bs)

decode_lem : (n : ℕ) → n < 2 ^ 32 → decode (to_le_bytes 4 n) ≡ some n
decode_lem n h = rw (from-to_le_bytes 4 n h)

abbrev queues : Queues
queues = record {
  packages = packages;
  out = list_channel Frame;
  pong = list_channel (Unit {0});
  accept = bounded_list _;
  to_json = to_le_bytes 4;
  from_json = decode;
  from-to_json = decode_lem;
}

abbrev idle_mux : Mux queues
idle_mux = record {
  table = [];
  outgoing = [];
  pongs = [];
  accepted_streams = record { items = []; limit = 100; shut = false };
  live = [];
}

abbrev hello : Frame
hello = new 7 cmd_psh (104 ∷ 105 ∷ [])

abbrev syn : Frame
syn = new_empty 7 cmd_syn

one_sent : Reach packages 7 (opened packages 7 [] []) (record (opened packages 7 [] []) {
  near = (7, ([], 9)) ∷ (7, ([], 10)) ∷ [];
  psh = hello ∷ [];
  sent = hello ∷ [];
})
unfolding create_entry wait_send_window new
one_sent = then_step here (send hello ((7, ([], 9)) ∷ (7, ([], 10)) ∷ []) refl refl)

deliver_in_order_example :
    (b : Buffer) × (view packages ((7, ([], 10)) ∷ []) 7 ≡ some b)
    × (hello ∷ [] ≡ [] ++ (b.queued ++ (hello ∷ [])))
    × (length b.queued + 1 ≤ 1500)
unfolding create_entry
deliver_in_order_example = deliver_in_order packages 7 [] [] one_sent

send_when_quiet_example :
    (t' : BufferTable packages) × (wait_send_window packages (create_entry packages [] 7).1 7
      ≡ taken t')
unfolding create_entry view
send_when_quiet_example =
    send_when_quiet packages 7 [] [] {l = opened packages 7 [] []} here refl refl
      (λ b e. sym (ap (λ (o : Option Buffer). queued_of o) e))

run-ne-overflow_example : run 7 start ((hello, true, 0) ∷ (hello, true, 5000) ∷ []) ≢ overflow
run-ne-overflow_example = run-ne-overflow 7 ((hello, true, 0) ∷ (hello, true, 5000) ∷ [])

abbrev after_syn : Mux queues
after_syn = record idle_mux {
  table = (7, ([], 10)) ∷ [];
  accepted_streams = record {
    items = record { id = 7; metadata = [] } ∷ [];
    limit = 100;
    shut = false;
  };
  live = 7 ∷ [];
}

on_frame-view_other_example : view packages ((7, ([], 10)) ∷ []) 8 ≡ view packages [] 8
unfolding on_frame create_entry create_stream contains_id new_empty
on_frame-view_other_example =
    on_frame-view_other queues idle_mux after_syn syn 0 8 refl (omega arith)

Reach-IsLive_example : IsLive queues after_syn
unfolding on_frame create_entry create_stream contains_id new_empty
Reach-IsLive_example =
    Reach-IsLive queues {m = idle_mux} refl refl (Live.then_step Live.here (Live.frame syn 0 refl))

-- The first frames bring the credit of the peer up to the target.
first_rounds :
    round 7 start hello true 0 ≡ next (record { remote_window = 9; target_remote_window = 10 }) none
unfolding round new
first_rounds = refl
