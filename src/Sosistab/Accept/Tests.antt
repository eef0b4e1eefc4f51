-- ===== src/Sosistab/Accept/Tests.antt =====
-- The theorems on handshakes, the table of those seen, and sessions at concrete inputs, with the toy
-- cryptography.
use geph.Base.{ℕ, ◌≤◌, ◌≡◌, refl, ap, true, false, List, [], ◌∷◌, replicate, arith}
use geph.Sosistab.Crypto.{plain}
use geph.Sosistab.State.{State}
use geph.Sosistab.State.Parts.{Paired}
use geph.Sosistab.Dedup
use geph.Sosistab.Dedup.{Dedup, insert, contains}
use geph.Sosistab.Handshake.{Cookie, Handshake, Fits}
use geph.Sosistab.Accept.{
  Draws, established, bytes_discrete, abs_diff, wait_interval, accept, dial, dial_send,
}
use geph.Sosistab.Accept.Session.{AreDrawn, dial-accept}
use geph.Sosistab.Accept.Replay.{Connection, is_established, accept_one, serve, accept-replayed}

abbrev cookie : Cookie
cookie = record { key = 5 ∷ []; params = record { obfs_lengths = true; obfs_timing = false } }

abbrev handshake : Handshake
handshake = record {
  eph_pk = replicate 32 1;
  timestamp = 1700000000;
  padding_len = 3;
  padding_hash = replicate 32 2;
  responding_to = replicate 32 3;
}

abbrev handshake_Fits : Fits handshake
handshake_Fits = record {
  eph_pk_fits = refl;
  timestamp_fits = omega arith;
  padding_len_fits = omega arith;
  padding_hash_fits = refl;
  responding_to_fits = refl;
}

abbrev draws : Draws
draws = record { eph_sk = 1 ∷ []; nonce = replicate 12 4; padding = 0 ∷ 0 ∷ [] }

abbrev draws_AreDrawn : AreDrawn plain draws
draws_AreDrawn = record { nonce_fits = refl; padding_fits = omega arith }

abbrev empty : Dedup (List ℕ)
empty = record { bucket = []; last_size = 1; expiry = 60 }

nothing_seen : (k : List ℕ) → contains bytes_discrete empty k ≡ false
unfolding contains Dedup.lookup
nothing_seen k = refl

near_times : abs_diff 1000 1010 ≤ wait_interval
unfolding abs_diff
near_times = omega arith

dial-accept_example :
    (reply : List ℕ) × (listening dialing : State) × ((accept plain empty cookie draws 1010 50
        (dial_send plain cookie draws 1000)).0
      ≡ established reply listening)
    × (dial plain cookie draws 1000 reply ≡ established [] dialing)
    × Paired plain dialing listening
    × Paired plain listening dialing
dial-accept_example =
    dial-accept plain empty cookie draws draws 1000 1010 50 draws_AreDrawn draws_AreDrawn
      (omega arith) (omega arith) near_times (nothing_seen _)

-- A client's connection, and another on which the same bytes come in later.
abbrev first : Connection
first = record {
  draws = draws;
  opened = 1010;
  instant = 50;
  input = dial_send plain cookie draws 1000;
}

abbrev again : Connection
again = record {
  draws = draws;
  opened = 1030;
  instant = 70;
  input = dial_send plain cookie draws 1000;
}

first_established : is_established (accept_one plain cookie empty first).0 ≡ true
first_established = ap is_established dial-accept_example.3

accept-replayed_example :
    let seen : Dedup (List ℕ) =
      serve plain cookie (accept_one plain cookie empty first).1 (again ∷ []) in
    (is_established (accept_one plain cookie seen again).0 ≡ false)
    × ((accept_one plain cookie seen again).1 ≡ seen)
accept-replayed_example =
    accept-replayed plain cookie empty first again (again ∷ []) (omega arith) first_established
      ((omega arith, omega arith), tt) refl
