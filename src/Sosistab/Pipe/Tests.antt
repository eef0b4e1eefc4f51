-- ===== src/Sosistab/Pipe/Tests.antt =====
-- The theorems on hunks and pipes at concrete inputs, with the toy cryptography.
use geph.Base.{
  ℕ, ◌<◌, ◌≡◌, refl, Bool, true, false, List, [], ◌∷◌, ◌++◌, some, length, take, drop,
  take-append-drop, ◌≢◌, arith,
}
use geph.Sosistab.Crypto.{plain}
use geph.Sosistab.State.{
  ObfsParams, State, Kind, broken_pipe, failed, nonce_bytes, length_bytes, length_word, new, hunk,
  sealed, encrypt, decrypt,
}
use geph.Sosistab.State.Padding.{encrypt_total, appended, state_behind}
use geph.Sosistab.State.Parts.{Paired, length-hunk}
use geph.Sosistab.State.RoundTrip.{decrypt-hunk_cut}
use geph.Sosistab.Pipe.{SosistabPipe, open_pipe, wrote, took, busy, poll_write}
use geph.Sosistab.Pipe.Drains.{wire, payloads}
use geph.Sosistab.Pipe.Reads.{joined, feed_all, feed_all-wire, feed_all-prefix}
use geph.Sosistab.Pipe.Writes.{poll_write-empty}

abbrev params : ObfsParams
params = record { obfs_lengths = true; obfs_timing = false }

abbrev client : State
client = new plain (7 ∷ []) false params

abbrev server : State
server = new plain (7 ∷ []) true params

both_Paired : Paired plain client server
unfolding new
both_Paired = record { key = refl; nonce = refl }

abbrev greeting : List ℕ
greeting = 104 ∷ 105 ∷ []

encrypt_total_example :
    encrypt plain client greeting [] 3
    ≡ some (appended plain client greeting 3, state_behind plain client greeting 3)
encrypt_total_example = encrypt_total plain client greeting [] 3 (omega arith)

thirty_lt-length : 30 < length (hunk plain client greeting false)
thirty_lt-length = omega (arith, length-hunk plain client greeting false)

decrypt-hunk_cut_example :
    (kind : Kind) × (decrypt plain server (take 30 (hunk plain client greeting false))
      ≡ failed kind)
    × (kind ≢ broken_pipe)
decrypt-hunk_cut_example =
    decrypt-hunk_cut plain client server greeting false 30 both_Paired (omega arith)
      thirty_lt-length

-- Two hunks of data with one of padding between them.
abbrev hunks : List (List ℕ × Bool)
hunks = (greeting, false) ∷ (0 ∷ 0 ∷ 0 ∷ [], true) ∷ (33 ∷ [], false) ∷ []

-- Their bytes, cut after 20 and after 70.
abbrev cut_after : ℕ → ℕ → List ℕ → List (List ℕ)
cut_after m n bs = take m bs ∷ take n (drop m bs) ∷ drop n (drop m bs) ∷ []

abbrev pieces : List (List ℕ)
pieces = cut_after 20 50 (wire plain client hunks)

joined-pieces : joined pieces ≡ wire plain client hunks
unfolding wire hunk sealed new nonce_bytes length_bytes length_word
joined-pieces = refl

feed_all-wire_example :
    let (broken, q) = feed_all plain (open_pipe server) pieces in
    (broken ≡ false) × (q.raw_read_buf ≡ []) × (q.read_buf ≡ payloads plain hunks)
feed_all-wire_example =
    feed_all-wire plain client server hunks pieces both_Paired
      (omega arith, (omega arith, (omega arith, tt))) joined-pieces

joined-first :
    take 20 (wire plain client hunks) ++ ([] ++ drop 20 (wire plain client hunks))
    ≡ wire plain client hunks
joined-first = take-append-drop 20 (wire plain client hunks)

feed_all-prefix_example :
    let (broken, q) = feed_all plain (open_pipe server) (take 20 (wire plain client hunks) ∷ []) in
    (broken ≡ false) × (rest : List ℕ) × (q.read_buf ++ rest ≡ payloads plain hunks)
feed_all-prefix_example =
    feed_all-prefix plain client server hunks (take 20 (wire plain client hunks)) []
      (drop 20 (wire plain client hunks)) both_Paired
      (omega arith, (omega arith, (omega arith, tt))) joined-first

poll_write-empty_example :
    let (r, passed, q) = poll_write plain (open_pipe client) greeting 3 (took 5 ∷ busy ∷ []) in
    (passed ++ q.to_write_buf ≡ appended plain client greeting 3)
    × (q.state ≡ state_behind plain client greeting 3)
    × ((m : ℕ) → r ≡ wrote m → (m ≡ 2) × (q.to_write_buf ≡ []))
poll_write-empty_example =
    poll_write-empty plain (open_pipe client) greeting 3 (took 5 ∷ busy ∷ []) refl (omega arith)

-- A pipe that still has bytes to write.
abbrev blocked : SosistabPipe
blocked = record {
  state = client;
  read_buf = [];
  read_closed = false;
  raw_read_buf = [];
  to_write_buf = 9 ∷ 8 ∷ 7 ∷ [];
}
