-- ===== src/Broker/Listings.antt =====
-- binaries/geph5-broker/src/rpc_impl.rs and database.rs: the exits and bridges that the broker knows, and
-- what it tells of them. A table is its rows; the cache of ten seconds before the list of exits is left
-- out, and the load of an exit, which the broker only passes on. Countries are their codes.
pub mod Rows
pub mod Lifetime
pub mod Events
pub mod Bridges
pub mod Tests
use Prim.Native.String.{String}
use text.Mathlib.Text.{◌==◌}
use geph.Base.{
  ℕ, ◌+◌, ◌≡◌, refl, Bool, true, false, not, ◌||◌, List, [], ◌∷◌, Option, none, some, ltb,
  if◌then◌else◌,
}
use geph.Base.Bytes.{bytes_eq}
use geph.Exit.Allow.{SocketAddr}
use geph.Broker.Envelope.{
  Packages, Mac, Signed, Opened, opened, rejected, VerifyError, mac_verify, signed_verify,
  signed_new,
}
use geph.Route.Exits.{ExitDescriptor}

-- A descriptor, and until when it counts.
pub record Announced : Type 0 where
  pub exit : ExitDescriptor
  pub expiry : ℕ

abbrev pub Rows : Type 0
Rows = List (List ℕ × Announced)

unfoldable pub row_of : List ℕ → Rows → Option Announced
row_of k [] = none
row_of k ((j, a) ∷ rows) = let rest = row_of k rows in if bytes_eq j k then some a else rest

-- INSERT … ON CONFLICT (pubkey) DO UPDATE
unfoldable pub upsert : List ℕ → Announced → Rows → Rows
upsert k v [] = (k, v) ∷ []
upsert k v ((j, a) ∷ rows) =
    let rest = upsert k v rows in if bytes_eq j k then (k, v) ∷ rows else (j, a) ∷ rest

-- `delete from exits_new where expiry < extract(epoch from now())`
unfoldable pub collect_garbage : ℕ → Rows → Rows
collect_garbage now [] = []
collect_garbage now ((k, a) ∷ rows) =
    let rest = collect_garbage now rows in if ltb a.expiry now then rest else (k, a) ∷ rest

unfoldable pub is_plus_exit : ExitDescriptor → Bool
is_plus_exit exit = not (
    exit.country == "CAN"
    || exit.country == "NLD"
    || exit.country == "FRA"
    || exit.country == "POL"
    || exit.country == "DEU")

unfoldable pub get_all_exits : Rows → Rows
get_all_exits rows = rows

unfoldable pub free_exits : Rows → Rows
free_exits [] = []
free_exits ((k, a) ∷ rows) =
    let rest = free_exits rows in if is_plus_exit a.exit then rest else (k, a) ∷ rest

-- The lists that go out, under the broker's master key.
module _ (p : Packages Rows) (domain master : List ℕ) where
  unfoldable pub get_exits : Rows → Signed Rows
  get_exits rows = signed_new p (get_all_exits rows) domain master

  unfoldable pub get_free_exits : Rows → Signed Rows
  get_free_exits rows = signed_new p (free_exits (get_all_exits rows)) domain master

pub data InsertResult : Type 0 where
  inserted : Rows → InsertResult
  not_genuine : VerifyError → InsertResult
  -- "Exit info timestamp is before current time (potential replay attack)"
  stale : InsertResult

-- The packages for the two layers of an announcement, the hash of the exits' token, and the domain.
module _ (outer : Packages (Signed Announced)) (inner : Packages Announced)
    (exit_token domain : List ℕ) where
  unfoldable pub store : Rows → ℕ → List ℕ → Announced → InsertResult
  store rows now pubkey descriptor =
      if ltb descriptor.expiry now
      then stale
      else inserted (upsert pubkey (record descriptor { expiry = now + 10 }) rows)

  unfoldable pub insert_signed : Rows → ℕ → Signed Announced → InsertResult
  insert_signed rows now s = elim (signed_verify inner s domain (λ _. true)) [
    | rejected e ↦ not_genuine e
    | opened descriptor ↦ store rows now s.pubkey descriptor
  ]

  unfoldable pub insert_exit : Rows → ℕ → Mac (Signed Announced) → InsertResult
  insert_exit rows now descriptor = elim (mac_verify outer descriptor exit_token) [
    | rejected e ↦ not_genuine e
    | opened s ↦ insert_signed rows now s
  ]
