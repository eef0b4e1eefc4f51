-- ===== src/Route/Cached.antt =====
-- binaries/geph5-client/src/get_dialer.rs: `get_dialer`, which keeps the dialer that it got last. Times are
-- in milliseconds; a dialer, with its key and exit, is any value, and the attempt to get one is that of
-- `get_dialer_inner`.
use geph.Base.{
  ℕ, ◌+◌, ◌-◌, ◌≤◌, ◌<◌, ◌≡◌, refl, ◌∙◌, true, false, List, [], ◌∷◌, Option, none, some, ltb, leb,
  min, All, if◌then◌else◌, arith, Bool-cases, inl, inr,
}
use geph.Sillad.Dialer.{connected, failed, Attempt, never, after, delay}
use geph.Sillad.Dialer.Race.{success, earlier}
use geph.Route.Exits.{bridge_auto, final_dialer}
use geph.Route.Dialer.Races.{success-dynamic_race}

pub data Outcome (V : Type 0) : Type 0 where
  returned : V → Outcome V
  -- The clock is before the time of the cached value; and no dialer, with nothing cached.
  clock_error no_dialer : Outcome V

module _ {V : Type 0} where
  unfoldable pub or_stale : Option (V × ℕ) → Outcome V
  or_stale none = no_dialer
  or_stale (some c) = returned c.0

  unfoldable pub settled : Option (V × ℕ) → ℕ → ℕ × Option V → Outcome V × Option (V × ℕ)
  settled cached now (t, some v) = (returned v, some (v, now + t))
  settled cached now (t, none) = (or_stale cached, cached)

  unfoldable pub IsReturned : Outcome V → Type 0
  IsReturned o = (v : V) × (o ≡ returned v)

  -- A call with a cached value returns one, and caches one no later than at its own end.
  record Serves (now t : ℕ) (r : Outcome V × Option (V × ℕ)) : Type 0 where
    value : V
    result : r.0 ≡ returned value
    next : V × ℕ
    cached : r.1 ≡ some next
    past : next.1 ≤ now + t

  settled-Serves :
      (v : V) (saved now : ℕ) (got : ℕ × Option V)
      → saved ≤ now
      → Serves now got.0 (settled (some (v, saved)) now got)
  unfolding settled or_stale
  settled-Serves v saved now (t, none) h = record {
    value = v;
    result = refl;
    next = (v, saved);
    cached = refl;
    past = omega arith;
  }
  settled-Serves v saved now (t, some w) h = record {
    value = w;
    result = refl;
    next = (w, now + t);
    cached = refl;
    past = omega arith;
  }

module _ {E V : Type 0} where
  -- `timeout`: when it is over, and what it gave.
  unfoldable pub within : ℕ → Attempt E V → ℕ × Option V
  within limit never = (limit, none)
  within limit (after t (connected v)) = if leb t limit then (t, some v) else (limit, none)
  within limit (after t (failed e)) = (min t limit, none)

  unfoldable pub get_dialer : Option (V × ℕ) → ℕ → Attempt E V → Outcome V × Option (V × ℕ)
  get_dialer none now inner = settled none now (within 5000 inner)
  get_dialer (some (v, saved)) now inner =
      if ltb now saved
      then (clock_error, some (v, saved))
      else if ltb (now - saved) 10000
      then (returned v, some (v, saved))
      else settled (some (v, saved)) now (within 5000 inner)

  -- Calls one after the other, each at its time and with what the attempt would give.
  unfoldable pub calls : Option (V × ℕ) → List (ℕ × Attempt E V) → List (Outcome V)
  calls cached [] = []
  calls cached ((now, inner) ∷ rest) = let r = get_dialer cached now inner in r.0 ∷ calls r.1 rest

  -- The clock does not go back: a call begins no earlier than the one before it can have ended.
  unfoldable pub IsOrdered : ℕ → List (ℕ × Attempt E V) → Type 0
  IsOrdered t [] = Unit
  IsOrdered t ((now, inner) ∷ rest) = (t ≤ now) × IsOrdered (now + (within 5000 inner).0) rest

  get_dialer-Serves :
      (v : V) (saved now : ℕ) (inner : Attempt E V)
      → saved ≤ now
      → Serves now (within 5000 inner).0 (get_dialer (some (v, saved)) now inner)
  unfolding get_dialer
  get_dialer-Serves v saved now inner h =
      let on_time : ltb now saved ≡ false = ground arith in
      elim (Bool-cases (ltb (now - saved) 10000)) [
        | inl e ↦
            rw (on_time, e)
              (record {
                value = v;
                result = refl;
                next = (v, saved);
                cached = refl;
                past = omega arith;
              })
        | inr e ↦ rw (on_time, e) (settled-Serves v saved now (within 5000 inner) h)
      ]

  -- Once a dialer has been cached, and as long as the clock does not go back, every later call returns
  -- a dialer: whatever the attempts to get another give, and whether or not they end.
  pub calls-IsReturned :
      (v : V) (saved t : ℕ) (cs : List (ℕ × Attempt E V))
      → saved ≤ t
      → IsOrdered t cs
      → All IsReturned (calls (some (v, saved)) cs)
  unfolding calls IsOrdered IsReturned
  calls-IsReturned v saved t [] h o = tt
  calls-IsReturned v saved t ((now, inner) ∷ rest) h (later, o) =
      let s = get_dialer-Serves v saved now inner (omega arith) in
      (
        (s.value, s.result),
        rw s.cached
            (calls-IsReturned s.next.0 s.next.1 (now + (within 5000 inner).0) rest s.past o),
      )

  -- A dialer that `get_dialer` has got is returned to every call within the next ten seconds, and the
  -- cache stays as it is.
  pub get_dialer_fresh :
      (cached : Option (V × ℕ)) (now t : ℕ) (v : V) (inner other : Attempt E V) (later : ℕ)
      → get_dialer cached now inner ≡ (returned v, some (v, now + t))
      → now + t ≤ later
      → later < now + t + 10000
      → get_dialer (get_dialer cached now inner).1 later other ≡ (returned v, some (v, now + t))
  unfolding get_dialer
  get_dialer_fresh cached now t v inner other later e h k =
      let on_time : ltb later (now + t) ≡ false = ground arith in
      let recent : ltb (later - (now + t)) 10000 ≡ true = ground arith in
      rw (e, on_time, recent) refl

earlier-delay :
    {E P : Type 0} (t : ℕ) (p : P) (b : Attempt E P)
    → t ≤ 1000
    → earlier (success {E = E} (after t (connected p))) (success (delay 1000 b)) ≡ some (t, p)
unfolding earlier success delay
earlier-delay t p never h = refl
earlier-delay t p (after u (connected q)) h = ground arith
earlier-delay t p (after u (failed e)) h = refl

-- With bridges in reserve, a direct connection that is there within the first second is the one that is
-- used, whatever the bridges do.
pub final_dialer_direct :
    {E P : Type 0} (t : ℕ) (p : P) (bridge_dialer : Attempt E P)
    → t ≤ 1000
    → success (final_dialer bridge_auto (after t (connected p)) bridge_dialer) ≡ some (t, p)
unfolding final_dialer
final_dialer_direct t p bridge_dialer h =
    success-dynamic_race (after t (connected p)) (delay 1000 bridge_dialer)
    ∙ earlier-delay t p bridge_dialer h
