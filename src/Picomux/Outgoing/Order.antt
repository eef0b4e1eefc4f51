-- ===== src/Picomux/Outgoing/Order.antt =====
-- What is enqueued is written in its order.
use geph.Base.{
  ◌≡◌, refl, sym, subst, ◌⊎◌, ◌∙◌, Bool, true, false, List, [], ◌∷◌, ◌++◌, none, some, append_assoc,
  append-nil, Bool-cases, inl, inr, if◌then◌else◌,
}
use geph.Base.Runtime.{Channel}
use geph.Picomux.Frame.{Frame}
use geph.Picomux.Outgoing.{Outgoing, new, enqueue, write_next}

-- A frame enqueued, or a round of the writer.
pub data Event : Type 0 where
  pushed : Frame → Event
  write_round : Bool → Event

abbrev pub frames_in : List Event → List Frame
frames_in [] = []
frames_in (pushed f ∷ es) = f ∷ frames_in es
frames_in (write_round ok ∷ es) = frames_in es

if_true : {A : Type 0} {x : A} (y : A) (b : Bool) → b ≡ true → (if b then x else y) ≡ x
if_true y true e = refl
if_true y false e = absurd (cc)

if_false : {A : Type 0} {y : A} (x : A) (b : Bool) → b ≡ false → (if b then x else y) ≡ y
if_false x false e = refl
if_false x true e = absurd (cc)

module _ (queue : Channel Frame) where
  abbrev pub step : Outgoing queue → Event → Outgoing queue
  step o (pushed f) = enqueue queue o f
  step o (write_round ok) = write_next queue o ok

  pub run : Outgoing queue → List Event → Outgoing queue
  run o [] = o
  run o (e ∷ es) = run (step o e) es

  -- The frames that a failed write has lost: none while the writer has not failed.
  record Ordered (o : Outgoing queue) (all : List Frame) : Type 0 where
    lost : List Frame
    order : o.written ++ (lost ++ queue.contents o.queued) ≡ all
    whole : o.err ≡ false → lost ≡ []

  cons_cases : (xs : List Frame) → (xs ≡ []) ⊎ ((f : Frame) × (rest : List Frame) × (xs ≡ f ∷ rest))
  cons_cases [] = inl refl
  cons_cases (f ∷ rest) = inr (f, rest, refl)

  enqueue-Ordered :
      (o : Outgoing queue) (all : List Frame) (f : Frame)
      → Ordered o all
      → Ordered (enqueue queue o f) (all ++ (f ∷ []))
  unfolding enqueue
  enqueue-Ordered o all f v = record {
    lost = v.lost;
    order =
        rw (queue.contents-push o.queued f, ← v.order, append_assoc o.written, append_assoc v.lost);
    whole = v.whole;
  }

  write_next_failed : (o : Outgoing queue) (ok : Bool) → o.err ≡ true → write_next queue o ok ≡ o
  unfolding write_next
  write_next_failed o ok e = if_true _ o.err e

  write_next_empty :
      (o : Outgoing queue) (ok : Bool)
      → o.err ≡ false
      → queue.pop o.queued ≡ none
      → write_next queue o ok ≡ o
  unfolding write_next
  write_next_empty o ok e h = if_false _ o.err e ∙ rw h

  write_next_cons :
      (o : Outgoing queue) (ok : Bool) (next : Frame) (rest : queue.Chan)
      → o.err ≡ false
      → queue.pop o.queued ≡ some (next, rest)
      → write_next queue o ok ≡ (
          if ok
          then record o { queued = rest; written = o.written ++ (next ∷ []) }
          else record o { queued = rest; err = true })
  unfolding write_next
  write_next_cons o ok next rest e h = if_false _ o.err e ∙ rw h

  write_next-Ordered :
      (o : Outgoing queue) (all : List Frame) (ok : Bool)
      → Ordered o all
      → Ordered (write_next queue o ok) all
  write_next-Ordered o all ok v = elim (Bool-cases o.err) [
    | inl e ↦ subst (λ z. Ordered z all) (sym (write_next_failed o ok e)) v
    | inr e ↦ elim (cons_cases (queue.contents o.queued)) [
      | inl q ↦
          subst (λ z. Ordered z all) (sym (write_next_empty o ok e (queue.pop_empty o.queued q))) v
      | inr (f, rest, q) ↦
          let (d, h, left) = queue.pop_cons o.queued f rest q in
          subst (λ z. Ordered z all) (sym (write_next_cons o ok f d e h))
            (popped ok f rest d e q left)
    ]
  ]
    where
      before :
          (f : Frame) (rest : List Frame)
          → o.err ≡ false
          → queue.contents o.queued ≡ f ∷ rest
          → o.written ++ (f ∷ rest) ≡ all
      before f rest e q = rw (← v.order, q, v.whole e)

      popped :
          (ok : Bool) (f : Frame) (rest : List Frame) (d : queue.Chan)
          → o.err ≡ false
          → queue.contents o.queued ≡ f ∷ rest
          → queue.contents d ≡ rest
          → Ordered
              (if ok
                then record o { queued = d; written = o.written ++ (f ∷ []) }
                else record o { queued = d; err = true })
              all
      popped true f rest d e q left = record {
        lost = [];
        order = rw (left, append_assoc o.written) (before f rest e q);
        whole = λ h. refl;
      }
      popped false f rest d e q left = record {
        lost = f ∷ [];
        order = rw left (before f rest e q);
        whole = λ h. absurd (cc);
      }

  run-Ordered :
      (o : Outgoing queue) (all : List Frame) (es : List Event)
      → Ordered o all
      → Ordered (run o es) (all ++ frames_in es)
  unfolding run
  run-Ordered o all [] v = rw (append-nil all) v
  run-Ordered o all (pushed f ∷ es) v =
      subst (Ordered (run (step o (pushed f)) es)) (append_assoc all (f ∷ []) (frames_in es))
        (run-Ordered (enqueue queue o f) (all ++ (f ∷ [])) es (enqueue-Ordered o all f v))
  run-Ordered o all (write_round ok ∷ es) v =
      run-Ordered (write_next queue o ok) all es (write_next-Ordered o all ok v)

  new-Ordered : Ordered (new queue) []
  new-Ordered = record { lost = []; order = queue.contents-new; whole = λ h. refl }

  -- In any order of frames enqueued and rounds of the writer: while no write has failed, the frames
  -- written and those still queued are together all that were enqueued, in their order; and what is
  -- written is a beginning of them also when one has failed.
  pub run-new :
      (es : List Event)
      → let o : Outgoing queue = run (new queue) es in
        (o.err ≡ false → o.written ++ queue.contents o.queued ≡ frames_in es)
        × (later : List Frame) × (o.written ++ later ≡ frames_in es)
  run-new es =
      let v = run-Ordered (new queue) [] es new-Ordered in
      (
        λ e. rw (← v.order, v.whole e),
        v.lost ++ queue.contents (run (new queue) es).queued,
        v.order,
      )
