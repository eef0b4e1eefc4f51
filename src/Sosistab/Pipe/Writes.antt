-- ===== src/Sosistab/Pipe/Writes.antt =====
-- However the lower pipe takes the bytes of a write, it gets each of them once and in order.
use geph.Base.{
  ℕ, ◌<◌, ◌≡◌, refl, sym, ap, ◌∙◌, true, false, List, [], ◌∷◌, ◌++◌, some, length, take, drop,
  append_assoc, take-append-drop, arith, if◌then◌else◌, Bool-cases, inl, inr,
}
use geph.Sosistab.Crypto.{Crypto}
use geph.Sosistab.State.{State, encrypt}
use geph.Sosistab.State.Padding.{appended, state_behind, encrypt_total}
use geph.Sosistab.Pipe.{
  SosistabPipe, is_empty, Sink, busy, failing, took, Written, wrote, write_loop, to_write,
  poll_write, poll_flush, flush_lower,
}

nil_of_empty : (bs : List ℕ) → is_empty bs ≡ true → bs ≡ []
nil_of_empty [] h = refl
nil_of_empty (b ∷ bs) h = absurd (cc)

-- What is handed down and what is left make up what was to be written, and a write is complete
-- only when nothing is left.
pub record Conserves (n : ℕ) (out : List ℕ) (o : Written × List ℕ × List ℕ) : Type 0 where
  pub all_there : o.1 ++ o.2 ≡ out
  pub done : (m : ℕ) → o.0 ≡ wrote m → (m ≡ n) × (o.2 ≡ [])

write_loop-Conserves :
    (n : ℕ) (out : List ℕ) (sinks : List Sink) → Conserves n out (write_loop n out sinks)
unfolding write_loop
write_loop-Conserves n out [] = record { all_there = refl; done = λ m e. absurd (cc) }
write_loop-Conserves n out (busy ∷ sinks) = record { all_there = refl; done = λ m e. absurd (cc) }
write_loop-Conserves n out (failing ∷ sinks) = record {
  all_there = refl;
  done = λ m e. absurd (cc);
}
write_loop-Conserves n out (took k ∷ sinks) =
    let ih : Conserves n (drop k out) (write_loop n (drop k out) sinks) =
      write_loop-Conserves n (drop k out) sinks in
    elim (Bool-cases (is_empty (drop k out))) [
      | inl e ↦ rw e (record {
        all_there = cut (nil_of_empty (drop k out) e);
        done = λ m h. (ground arith, refl);
      })
      | inr e ↦ rw e (record {
        all_there =
            append_assoc (take k out) _ _
            ∙ ap (λ z. take k out ++ z) ih.all_there
            ∙ take-append-drop k out;
        done = ih.done;
      })
    ]
  where
    cut : drop k out ≡ [] → take k out ++ [] ≡ out
    cut h = ap (λ z. take k out ++ z) (sym h) ∙ take-append-drop k out

-- A flush hands down a beginning of the bytes that are kept and keeps the rest, and it goes on to the
-- lower pipe only when none are left; the keys and counters stay as they are.
pub poll_flush-keeps :
    (p : SosistabPipe) (sink : Sink)
    → let (r, passed, q) = poll_flush p sink in
      (passed ++ q.to_write_buf ≡ p.to_write_buf)
      × (r ≡ flush_lower → q.to_write_buf ≡ [])
      × (q.state ≡ p.state)
unfolding poll_flush
poll_flush-keeps p busy = elim (Bool-cases (is_empty p.to_write_buf)) [
  | inl e ↦ rw e (refl, λ h. nil_of_empty p.to_write_buf e, refl)
  | inr e ↦ rw e (refl, λ h. absurd (cc), refl)
]
poll_flush-keeps p failing = elim (Bool-cases (is_empty p.to_write_buf)) [
  | inl e ↦ rw e (refl, λ h. nil_of_empty p.to_write_buf e, refl)
  | inr e ↦ rw e (refl, λ h. absurd (cc), refl)
]
poll_flush-keeps p (took k) = elim (Bool-cases (is_empty p.to_write_buf)) [
  | inl e ↦ rw e (refl, λ h. nil_of_empty p.to_write_buf e, refl)
  | inr e ↦ elim (Bool-cases (is_empty (drop k p.to_write_buf))) [
    | inl f ↦
        rw (e, f)
          (take-append-drop k p.to_write_buf, λ h. nil_of_empty (drop k p.to_write_buf) f, refl)
    | inr f ↦ rw (e, f) (take-append-drop k p.to_write_buf, λ h. absurd (cc), refl)
  ]
]

module _ (c : Crypto) where
  starts :
      (s : State) (buf out : List ℕ) (random : ℕ)
      → out ≡ []
      → random < 10
      → (if is_empty out then encrypt c s buf out random else some (out, s))
        ≡ some (appended c s buf random, state_behind c s buf random)
  starts s buf out random e r = rw e (encrypt_total c s buf [] random r)

  -- A write into an empty buffer, with a draw from 0 to 9 and whatever the lower pipe takes at each
  -- poll: the bytes that went down and those still kept are together the encrypted data (and
  -- padding), each once and in order; the state is the one behind them; and the write is reported
  -- as complete, for the whole of the caller's data, only when all went down.
  pub poll_write-empty :
      (p : SosistabPipe) (buf : List ℕ) (random : ℕ) (sinks : List Sink)
      → p.to_write_buf ≡ []
      → random < 10
      → let (r, passed, q) = poll_write c p buf random sinks in
        (passed ++ q.to_write_buf ≡ appended c p.state buf random)
        × (q.state ≡ state_behind c p.state buf random)
        × ((m : ℕ) → r ≡ wrote m → (m ≡ length buf) × (q.to_write_buf ≡ []))
  unfolding poll_write to_write
  poll_write-empty p buf random sinks e r =
      let w = write_loop-Conserves (length buf) (appended c p.state buf random) sinks in
      rw (starts p.state buf p.to_write_buf random e r, poll_write) (w.all_there, refl, w.done)

  -- A write that finds bytes of an earlier one encrypts nothing and goes on with those: what goes
  -- down and what is kept are together the earlier bytes, and it is reported as complete, for the
  -- whole of the caller's data, only when all of them went down.
  pub poll_write-again :
      (p : SosistabPipe) (buf : List ℕ) (random : ℕ) (sinks : List Sink)
      → is_empty p.to_write_buf ≡ false
      → let (r, passed, q) = poll_write c p buf random sinks in
        (passed ++ q.to_write_buf ≡ p.to_write_buf)
        × (q.state ≡ p.state)
        × ((m : ℕ) → r ≡ wrote m → (m ≡ length buf) × (q.to_write_buf ≡ []))
  unfolding poll_write to_write
  poll_write-again p buf random sinks e =
      let w = write_loop-Conserves (length buf) p.to_write_buf sinks in
      rw (e, poll_write) (w.all_there, refl, w.done)
