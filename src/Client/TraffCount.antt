-- ===== src/Client/TraffCount.antt =====
-- binaries/geph5-client/src/traffcount.rs: the traffic of each second. Times are milliseconds of one
-- clock. The code adds up bytes in `f64`, which is exact for whole numbers below 2^53: the bins are
-- natural numbers.
pub mod History
use geph.Base.{
  ℕ, zero, suc, ◌+◌, ◌-◌, ◌*◌, ◌/◌, List, [], ◌∷◌, ◌++◌, length, leb, ltb, ◌==◌, if◌then◌else◌,
}

pub record TraffCount : Type 0 where
  -- Oldest first.
  pub bins : List ℕ
  pub window_start : ℕ
  pub max_history_seconds : ℕ

unfoldable pub with_history : ℕ → ℕ → TraffCount
with_history max_seconds now = record {
  bins = [];
  window_start = now;
  max_history_seconds = max_seconds;
}

unfoldable pub new : ℕ → TraffCount
unfolding with_history
new now = with_history 600 now

abbrev pub pop_front : List ℕ → List ℕ
pop_front [] = []
pop_front (b ∷ bins) = bins

-- One round of the loop: an empty bin comes in, and the oldest goes where they are too many.
unfoldable pub add_bin : ℕ → List ℕ → List ℕ
add_bin max_seconds bins =
    (if leb max_seconds (length bins) then pop_front bins else bins) ++ (0 ∷ [])

unfoldable pub add_bins : ℕ → ℕ → List ℕ → List ℕ
add_bins zero max_seconds bins = bins
add_bins (suc n) max_seconds bins = add_bins n max_seconds (add_bin max_seconds bins)

unfoldable pub ensure_bins_updated : TraffCount → ℕ → TraffCount
ensure_bins_updated c now =
    let seconds_elapsed = (now - c.window_start) / 1000 in
    elim c.bins [
      | [] ↦ record c { bins = 0 ∷ [] }
      | b ∷ bins ↦ if seconds_elapsed == 0 then c else record c {
        bins = add_bins seconds_elapsed c.max_history_seconds (b ∷ bins);
        window_start = c.window_start + seconds_elapsed * 1000;
      }
    ]

-- `*last += bytes`, or a first bin where there is none.
unfoldable pub add_to_last : ℕ → List ℕ → List ℕ
add_to_last bytes [] = if ltb 0 bytes then bytes ∷ [] else []
add_to_last bytes (b ∷ []) = (b + bytes) ∷ []
add_to_last bytes (b ∷ b' ∷ bins) = b ∷ add_to_last bytes (b' ∷ bins)

unfoldable pub incr : TraffCount → ℕ → ℕ → TraffCount
incr c bytes now =
    let c' = ensure_bins_updated c now in record c' { bins = add_to_last bytes c'.bins }

unfoldable pub cleanup : TraffCount → ℕ → TraffCount
cleanup c now = ensure_bins_updated c now

unfoldable pub speed_history : TraffCount → List ℕ
speed_history c = c.bins
