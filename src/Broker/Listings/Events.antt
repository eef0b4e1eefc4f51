-- ===== src/Broker/Listings/Events.antt =====
-- The table of exits over any sequence of announcements and deletions.
use geph.Base.{
  ℕ, ◌≡◌, refl, sym, ap, ◌∙◌, Bool, true, false, ◌&&◌, List, [], ◌∷◌, none, some, leb,
  if◌then◌else◌, subst, Bool-cases, inl, inr,
}
use geph.Base.Bytes.{bytes_eq, bytes_eq→eq}
use geph.Broker.Listings.{Announced, Rows, row_of, upsert, collect_garbage}
use geph.Broker.Listings.Rows.{row_of-upsert}
use geph.Broker.Listings.Lifetime.{
  IsKeyed, upsert-IsKeyed, collect_garbage-IsKeyed, unless_expired, row_of-collect_garbage,
  expiring,
}

-- What happens to the table: announcements, and deletions of what has expired at a time.
pub data Event : Type 0 where
  announced : List ℕ → Announced → Event
  deleted : ℕ → Event

unfoldable pub after_event : Rows → Event → Rows
after_event rows (announced k v) = upsert k v rows
after_event rows (deleted now) = collect_garbage now rows

unfoldable pub after_events : Rows → List Event → Rows
after_events rows [] = rows
after_events rows (e ∷ es) = after_events (after_event rows e) es

after_event-IsKeyed : (rows : Rows) (e : Event) → IsKeyed rows → IsKeyed (after_event rows e)
unfolding after_event
after_event-IsKeyed rows (announced k v) h = upsert-IsKeyed k v rows h
after_event-IsKeyed rows (deleted now) h = collect_garbage-IsKeyed now rows h

-- No event announces the exit of a key.
unfoldable pub IsSilent : List ℕ → List Event → Type 0
IsSilent k [] = Unit
IsSilent k (announced j v ∷ es) = (bytes_eq j k ≡ false) × IsSilent k es
IsSilent k (deleted now ∷ es) = IsSilent k es

-- No deletion among the events is at a time after an expiry.
unfoldable pub all_before : ℕ → List Event → Bool
all_before expiry [] = true
all_before expiry (announced j v ∷ es) = all_before expiry es
all_before expiry (deleted now ∷ es) = leb now expiry && all_before expiry es

-- Two tables with the same row for a key keep the same row for it.
row_of_same :
    (j : List ℕ) (es : List Event) (rows others : Rows)
    → IsKeyed rows
    → IsKeyed others
    → row_of j rows ≡ row_of j others
    → row_of j (after_events rows es) ≡ row_of j (after_events others es)
unfolding after_events after_event
row_of_same j [] rows others h k e = e
row_of_same j (announced i v ∷ es) rows others h k e =
    row_of_same j es (upsert i v rows) (upsert i v others) (upsert-IsKeyed i v rows h)
      (upsert-IsKeyed i v others k)
      (row_of-upsert j i v rows
        ∙ ap (λ z. if bytes_eq i j then some v else z) e
        ∙ sym (row_of-upsert j i v others))
row_of_same j (deleted now ∷ es) rows others h k e =
    row_of_same j es (collect_garbage now rows) (collect_garbage now others)
      (collect_garbage-IsKeyed now rows h) (collect_garbage-IsKeyed now others k)
      (row_of-collect_garbage j now rows h
        ∙ ap (unless_expired now) e
        ∙ sym (row_of-collect_garbage j now others k))

row_of_gone :
    (k : List ℕ) (es : List Event) (rows : Rows)
    → IsKeyed rows
    → IsSilent k es
    → row_of k rows ≡ none
    → row_of k (after_events rows es) ≡ none
unfolding after_events after_event IsSilent unless_expired
row_of_gone k [] rows h q e = e
row_of_gone k (announced j v ∷ es) rows h q e =
    row_of_gone k es (upsert j v rows) (upsert-IsKeyed j v rows h) q.1
      (row_of-upsert k j v rows ∙ rw q.0 e)
row_of_gone k (deleted now ∷ es) rows h q e =
    row_of_gone k es (collect_garbage now rows) (collect_garbage-IsKeyed now rows h) q
      (row_of-collect_garbage k now rows h ∙ ap (unless_expired now) e)

row_of_kept :
    (k : List ℕ) (v : Announced) (es : List Event) (rows : Rows)
    → IsKeyed rows
    → IsSilent k es
    → row_of k rows ≡ some v
    → row_of k (after_events rows es) ≡ (if all_before v.expiry es then some v else none)
unfolding after_events after_event IsSilent all_before
row_of_kept k v [] rows h q e = e
row_of_kept k v (announced j w ∷ es) rows h q e =
    row_of_kept k v es (upsert j w rows) (upsert-IsKeyed j w rows h) q.1
      (row_of-upsert k j w rows ∙ rw q.0 e)
row_of_kept k v (deleted now ∷ es) rows h q e =
    let found : row_of k (collect_garbage now rows) ≡ (if leb now v.expiry then some v else none) =
      row_of-collect_garbage k now rows h ∙ ap (unless_expired now) e ∙ expiring now v in
    elim (Bool-cases (leb now v.expiry)) [
      | inl b ↦ rw b (
          row_of_kept k v es (collect_garbage now rows) (collect_garbage-IsKeyed now rows h) q
            (found ∙ rw b refl))
      | inr b ↦ rw b (
          row_of_gone k es (collect_garbage now rows) (collect_garbage-IsKeyed now rows h) q
            (found ∙ rw b refl))
    ]

-- In a table whose keys are apart, an exit is announced, and then come, in any order and number,
-- deletions of expired rows and announcements of exits with other keys. The exit's row is there, as
-- it was announced, if none of the deletions was at a time after its expiry, and is gone if one was.
-- What is there for any other key, whose exits may be announced too, is what would be there without
-- this announcement.
pub row_of-after_events-upsert :
    (j k : List ℕ) (v : Announced) (rows : Rows) (es : List Event)
    → IsKeyed rows
    → IsSilent k es
    → row_of j (after_events (upsert k v rows) es) ≡ (
        if bytes_eq k j
        then (if all_before v.expiry es then some v else none)
        else row_of j (after_events rows es))
row_of-after_events-upsert j k v rows es h q = elim (Bool-cases (bytes_eq k j)) [
  | inl b ↦ rw b (
      row_of_kept j v es (upsert k v rows) (upsert-IsKeyed k v rows h)
        (subst (λ z. IsSilent z es) (bytes_eq→eq k j b) q) (row_of-upsert j k v rows ∙ rw b refl))
  | inr b ↦ rw b (
      row_of_same j es (upsert k v rows) rows (upsert-IsKeyed k v rows h) h
        (row_of-upsert j k v rows ∙ rw b refl))
]
