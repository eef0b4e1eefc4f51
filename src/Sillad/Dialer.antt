-- ===== src/Sillad/Dialer.antt =====
-- libraries/sillad/src/dialer.rs: the dialers that are made of other dialers. A dial is an attempt:
-- when it ends, counted from its start, and with what, or that it never ends. The pipes and the errors
-- of the inner dialers are any types; errors that the module makes itself are `Fault`s.
pub mod Race
use geph.Base.{ℕ, ◌+◌, leb, if◌then◌else◌}

-- `broken_pipe` is `FailingDialer`'s, `timed_out` is `TimeoutDialer`'s.
pub data Fault (E : Type 0) : Type 0 where
  broken_pipe timed_out : Fault E
  inner : E → Fault E

pub data Answer (E P : Type 0) : Type 0 where
  connected : P → Answer E P
  failed : Fault E → Answer E P

pub data Attempt (E P : Type 0) : Type 0 where
  never : Attempt E P
  after : ℕ → Answer E P → Attempt E P

pub data EitherPipe (L R : Type 0) : Type 0 where
  left : L → EitherPipe L R
  right : R → EitherPipe L R

module _ {E : Type 0} where
  -- The first to end, with its time and answer, and the attempt that still runs.
  unfoldable pub settle : {P : Type 0} → ℕ → Answer E P → Attempt E P → Attempt E P
  settle t (connected p) other = after t (connected p)
  settle t (failed e) other = other

  -- `race_ok`: of two that end at once, the first is looked at first.
  unfoldable pub race_ok : {P : Type 0} → Attempt E P → Attempt E P → Attempt E P
  race_ok never never = never
  race_ok never (after t b) = settle t b never
  race_ok (after s a) never = settle s a never
  race_ok (after s a) (after t b) =
      if leb s t then settle s a (after t b) else settle t b (after s a)

  unfoldable pub map_pipe : {P Q : Type 0} → (P → Q) → Attempt E P → Attempt E Q
  map_pipe f never = never
  map_pipe f (after t (connected p)) = after t (connected (f p))
  map_pipe f (after t (failed e)) = after t (failed e)

  -- `RaceDialer`
  unfoldable pub race : {L R : Type 0} → Attempt E L → Attempt E R → Attempt E (EitherPipe L R)
  race a b = race_ok (map_pipe left a) (map_pipe right b)

  -- `FailingDialer`
  unfoldable pub failing : {P : Type 0} → Attempt E P
  failing = after 0 (failed broken_pipe)

  -- `TimeoutDialer`: the attempt is looked at before the timer.
  unfoldable pub timeout : {P : Type 0} → ℕ → Attempt E P → Attempt E P
  timeout limit never = after limit (failed timed_out)
  timeout limit (after t a) = if leb t limit then after t a else after limit (failed timed_out)

  -- `DelayDialer`, and `DynDelayDialer` with the delay that its function gives.
  unfoldable pub delay : {P : Type 0} → ℕ → Attempt E P → Attempt E P
  delay d never = never
  delay d (after t a) = after (d + t) a

  -- `FallbackDialer`: the fallback starts when the primary has failed.
  unfoldable pub fallback : {A B : Type 0} → Attempt E A → Attempt E B → Attempt E (EitherPipe A B)
  fallback never b = never
  fallback (after t (connected p)) b = after t (connected (left p))
  fallback (after t (failed e)) b = delay t (map_pipe right b)
