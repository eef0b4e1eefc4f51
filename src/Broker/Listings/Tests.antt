-- ===== src/Broker/Listings/Tests.antt =====
-- The broker's lists at concrete announcements, with toy packages.
use geph.Base.{
  ℕ, ◌≡◌, refl, true, false, List, [], ◌∷◌, ◌++◌, none, some, if◌then◌else◌, arith, ℕ_discrete,
}
use geph.Base.Bytes.{bytes_eq}
use geph.Exit.Allow.{v4, SocketAddr}
use geph.Exit.Auth.{AccountLevel, plus}
use geph.Mizaru.{
  UnblindedSignature, valid, blind_verify, verify_member, compare_root, accumulate,
  verify_signature,
}
use geph.Mizaru.Tests.{toy}
use geph.Route.{race_route, Routes}
use geph.Broker.Envelope.{Packages, Mac, Signed, mac_verify, signed_verify}
use geph.Broker.Listings.{
  Announced, Rows, row_of, upsert, inserted, insert_exit, insert_signed, store,
}
use geph.Broker.Listings.Rows.{IsGenuine, insert_exit-IsGenuine}
use geph.Broker.Listings.Lifetime.{IsKeyed}
use geph.Broker.Listings.Events.{
  IsSilent, all_before, Event, announced, deleted, after_events, row_of-after_events-upsert,
}
use geph.Broker.Listings.Bridges.{
  Bridge, get_routes, level_of_token, account_level, leaf_routes, AreOffered, get_routes-AreOffered,
}

abbrev packages : {T : Type 0} → Packages T
packages = record {
  stdcode = λ n. [];
  hash = λ bs. bs;
  keyed_hash = λ k bs. k ++ bs;
  verifying_key = λ k. k;
  sign = λ k msg. msg;
  verify_strict = λ k msg s. true;
  verify_strict-sign = λ k msg. refl;
}

abbrev address : SocketAddr
address = record { ip = v4 (record { a = 1; b = 2; c = 3; d = 4 }); port = 9 }

abbrev first : Announced
first = record {
  exit = record { c2e_listen = address; b2e_listen = address; country = "CAN"; city = "" };
  expiry = 500;
}

abbrev rows : Rows
rows = (1 ∷ [], first) ∷ (2 ∷ [], record first { expiry = 90 }) ∷ []

-- One exit more is first, and one deletion is before the expiry of the first, and one after.
abbrev events : List Event
events = deleted 105 ∷ announced (3 ∷ []) first ∷ deleted 501 ∷ []

row_of-after_events-upsert_example :
    row_of (2 ∷ []) (after_events (upsert (2 ∷ []) first rows) events) ≡ (
      if bytes_eq (2 ∷ []) (2 ∷ [])
      then (if all_before 500 events then some first else none)
      else row_of (2 ∷ []) (after_events rows events))
unfolding IsKeyed IsSilent bytes_eq
row_of-after_events-upsert_example =
    row_of-after_events-upsert (2 ∷ []) (2 ∷ []) first rows events ((refl, tt), (tt, tt)) (refl, tt)

abbrev message : Mac (Signed Announced)
message = record {
  inner = record { inner = first; signature = []; pubkey = 2 ∷ [] };
  khash = 7 ∷ [];
}

taken :
    insert_exit packages packages (7 ∷ []) [] rows 100 message
    ≡ inserted (upsert (2 ∷ []) (record first { expiry = 110 }) rows)
unfolding insert_exit insert_signed store signed_verify mac_verify
taken = ground arith

insert_exit-IsGenuine_example :
    IsGenuine packages packages
      (7 ∷ [])
      []
      rows
      (upsert (2 ∷ []) (record first { expiry = 110 }) rows)
      100
      message
insert_exit-IsGenuine_example =
    insert_exit-IsGenuine packages packages (7 ∷ []) [] rows
      (upsert (2 ∷ []) (record first { expiry = 110 }) rows) 100 message taken

abbrev bridges : List Bridge
bridges =
    record {
      pool = record { has_waw = false; has_rbxa = true };
      delay_ms = 5;
      plus_only = true;
      cookie = "c";
      tcp_forward = λ p. some address;
    }
    ∷ []

abbrev sig : UnblindedSignature toy
sig = record {
  epoch = 2;
  used_key = 13 ∷ [];
  merkle_branch = 14 ∷ 122 ∷ [];
  unblinded_sig = 7 ∷ [];
}

abbrev root_of : AccountLevel → ℕ
root_of level = 1364

verifies :
    get_routes toy root_of (1 ∷ []) sig bridges ≡ some (race_route (leaf_routes plus bridges))
unfolding get_routes level_of_token account_level blind_verify verify_member compare_root accumulate
    verify_signature ℕ_discrete
verifies = refl

get_routes-AreOffered_example :
    (level : AccountLevel) × (rs : Routes) × (race_route (leaf_routes plus bridges) ≡ race_route rs)
    × (blind_verify toy (root_of level) (1 ∷ []) sig ≡ valid)
    × AreOffered level bridges rs
get_routes-AreOffered_example =
    get_routes-AreOffered toy root_of (1 ∷ []) sig bridges (race_route (leaf_routes plus bridges))
      verifies
