-- ===== src/Sillad/Dialer/Race.antt =====
-- When the combined dialers connect.
use geph.Base.{
  ℕ, ◌+◌, ◌≤◌, ◌≡◌, refl, Option, none, some, leb, if◌then◌else◌, arith, Bool-cases, inl, inr,
  leb→le,
}
use geph.Sillad.Dialer.{
  Fault, timed_out, Answer, connected, failed, Attempt, never, after, EitherPipe, left, right,
  settle, race_ok, map_pipe, timeout, delay, fallback,
}

-- The earlier of two, the first where they come at once.
unfoldable pub earlier : {P : Type 0} → Option (ℕ × P) → Option (ℕ × P) → Option (ℕ × P)
earlier none b = b
earlier (some a) none = some a
earlier (some a) (some b) = if leb a.0 b.0 then some a else some b

module _ {E : Type 0} where
  -- The time and the pipe of an attempt that connects.
  unfoldable pub success : {P : Type 0} → Attempt E P → Option (ℕ × P)
  success never = none
  success (after t (connected p)) = some (t, p)
  success (after t (failed e)) = none

  -- Two racing attempts connect when one of them does, with the pipe of the one that connects first: an
  -- attempt that fails, or never ends, never stands in the way of the other.
  pub success-race_ok :
      {P : Type 0} (a b : Attempt E P) → success (race_ok a b) ≡ earlier (success a) (success b)
  unfolding success race_ok settle earlier
  success-race_ok never never = refl
  success-race_ok never (after t (connected p)) = refl
  success-race_ok never (after t (failed e)) = refl
  success-race_ok (after s (connected p)) never = refl
  success-race_ok (after s (failed e)) never = refl
  success-race_ok (after s (connected p)) (after t (connected q)) = ground arith
  success-race_ok (after s (connected p)) (after t (failed q)) = ground arith
  success-race_ok (after s (failed p)) (after t (connected q)) = ground arith
  success-race_ok (after s (failed p)) (after t (failed q)) = ground arith

  -- An attempt that ends by a time, and connects where the answer does.
  record EndsBy {A B : Type 0} (r : Answer E B) (limit : ℕ) (x : Attempt E (EitherPipe A B))
      : Type 0 where
    at : ℕ
    answer : Answer E (EitherPipe A B)
    ends : x ≡ after at answer
    soon : at ≤ limit
    connects : (q : B) → r ≡ connected q → (p : EitherPipe A B) × (answer ≡ connected p)

  fallback_failed :
      {A B : Type 0} (d n limit : ℕ) (e : Fault E) (r : Answer E B)
      → d ≤ limit
      → EndsBy {A = A} r (limit + n) (fallback (after d (failed e)) (after n r))
  unfolding fallback delay map_pipe
  fallback_failed d n limit e (connected q) h = record {
    at = d + n;
    answer = connected (right q);
    ends = refl;
    soon = omega arith;
    connects = λ p f. (right q, refl);
  }
  fallback_failed d n limit e (failed x) h = record {
    at = d + n;
    answer = failed x;
    ends = refl;
    soon = omega arith;
    connects = λ p f. absurd (cc);
  }

  fallback_in_time :
      {A B : Type 0} (t n limit : ℕ) (a : Answer E A) (r : Answer E B)
      → t ≤ limit
      → EndsBy r (limit + n) (fallback (after t a) (after n r))
  unfolding fallback
  fallback_in_time t n limit (connected p) r h = record {
    at = t;
    answer = connected (left p);
    ends = refl;
    soon = omega arith;
    connects = λ q f. (left p, refl);
  }
  fallback_in_time t n limit (failed e) r h = fallback_failed t n limit e r h

  fallback_timeout-EndsBy :
      {A B : Type 0} (limit n : ℕ) (a : Attempt E A) (r : Answer E B)
      → EndsBy r (limit + n) (fallback (timeout limit a) (after n r))
  unfolding timeout
  fallback_timeout-EndsBy limit n never r = fallback_failed limit n limit timed_out r (omega arith)
  fallback_timeout-EndsBy limit n (after t a) r = elim (Bool-cases (leb t limit)) [
    | inr e ↦ rw e (fallback_failed limit n limit timed_out r (omega arith))
    | inl e ↦ rw e (fallback_in_time t n limit a r (leb→le t limit e))
  ]

  -- An attempt with a time limit, and a fallback that ends with some answer after `n`: the two together
  -- end no later than `limit + n`; and they connect if the fallback does.
  pub fallback-timeout :
      {A B : Type 0} (limit n : ℕ) (a : Attempt E A) (r : Answer E B)
      → (u : ℕ) × (answer : Answer E (EitherPipe A B)) × (fallback (timeout limit a) (after n r)
          ≡ after u answer)
        × (u ≤ limit + n)
        × ((q : B) → r ≡ connected q → (p : EitherPipe A B) × (answer ≡ connected p))
  fallback-timeout limit n a r =
      let v = fallback_timeout-EndsBy limit n a r in (v.at, v.answer, v.ends, v.soon, v.connects)
