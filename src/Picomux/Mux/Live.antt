-- ===== src/Picomux/Mux/Live.antt =====
-- The ids in the table of a mux are those of its running streams, each once: a `BufferReceive` that
-- is dropped takes its own entry out of the table, never that of another stream.
use geph.Base.{
  ℕ, ◌≡◌, subst, sym, ap, ◌∙◌, Bool, false, List, [], ◌∷◌, Option, none, some, ◌==◌, ◌||◌,
  if◌then◌else◌, ==→eq, arith, Bool-cases, Option-cases, inl, inr,
}
use geph.Base.Bytes.{from_le_bytes}
use geph.Picomux.Frame.{Frame}
use geph.Picomux.BufferTable.{
  BufferTable, contains_id, create_entry, send_to, incr_send_window, drop_receive,
}
use geph.Picomux.BufferTable.View.{
  Buffer, view, view-create_entry, view-send_to, view-incr_send_window, view-drop_receive, received,
  credited, contains_id-view_eq, has,
}
use geph.Picomux.Mux.Effect.{Effect, opens, credits, buffers, leaves, on_frame-Effect}
use geph.Picomux.Mux.{
  Queues, Mux, Stream, ok, create_stream, remove_id, end_stream, fresh_id, open_request, enqueue,
  syn_frame, on_frame, enqueue, syn_frame,
}

abbrev pub mem_id : ℕ → List ℕ → Bool
mem_id j [] = false
mem_id j (k ∷ ks) = k == j || mem_id j ks

abbrev pub Distinct : List ℕ → Type 0
Distinct [] = Unit
Distinct (k ∷ ks) = (mem_id k ks ≡ false) × Distinct ks

has-received : (b : Option Buffer) (f : Frame) → has (received b f) ≡ has b
has-received b f = ground arith

has-credited : (b : Option Buffer) (n : ℕ) → has (credited b n) ≡ has b
has-credited b n = ground arith

mem_id-remove_id :
    (id j : ℕ) (ks : List ℕ) → mem_id j (remove_id id ks) ≡ (if id == j then false else mem_id j ks)
unfolding remove_id
mem_id-remove_id id j [] = ground arith
mem_id-remove_id id j (k ∷ ks) = ground (arith, mem_id-remove_id id j ks)

remove_id-Distinct : (id : ℕ) (ks : List ℕ) → Distinct ks → Distinct (remove_id id ks)
unfolding remove_id
remove_id-Distinct id [] d = tt
remove_id-Distinct id (k ∷ ks) d =
    ground (arith, remove_id-Distinct id ks d.1, mem_id-remove_id id k ks)

module _ (q : Queues) where
  open q use {packages}

  pub record IsLive (m : Mux q) : Type 0 where
    pub agrees : (j : ℕ) → contains_id packages m.table j ≡ mem_id j m.live
    pub distinct : Distinct m.live

  kept :
      (t : BufferTable packages) (g : Option Buffer → Option Buffer) (id j : ℕ)
      → ((b : Option Buffer) → has (g b) ≡ has b)
      → has (if id == j then g (view packages t id) else view packages t j)
        ≡ has (view packages t j)
  kept t g id j h = elim (Bool-cases (id == j)) [
    | inl e ↦ rw (e, ← ==→eq id j e) (h (view packages t id))
    | inr e ↦ rw e
  ]

  contains-create_entry :
      (t : BufferTable packages) (id j : ℕ)
      → contains_id packages (create_entry packages t id).1 j
        ≡ (id == j || contains_id packages t j)
  contains-create_entry t id j = ground (
    arith,
    contains_id-view_eq packages t j,
    contains_id-view_eq packages (create_entry packages t id).1 j,
    view-create_entry packages t id j,
  )

  contains-send_to :
      (t : BufferTable packages) (id j now : ℕ) (f : Frame)
      → contains_id packages (send_to packages t id f now) j ≡ contains_id packages t j
  contains-send_to t id j now f =
      contains_id-view_eq packages (send_to packages t id f now) j
      ∙ ap has (view-send_to packages t id j now f)
      ∙ kept t (λ b. received b f) id j (λ b. has-received b f)
      ∙ sym (contains_id-view_eq packages t j)

  contains-incr_send_window :
      (t : BufferTable packages) (id j n : ℕ)
      → contains_id packages (incr_send_window packages t id n) j ≡ contains_id packages t j
  contains-incr_send_window t id j n =
      contains_id-view_eq packages (incr_send_window packages t id n) j
      ∙ ap has (view-incr_send_window packages t id j n)
      ∙ kept t (λ b. credited b n) id j (λ b. has-credited b n)
      ∙ sym (contains_id-view_eq packages t j)

  create_stream-IsLive :
      {m : Mux q} (id : ℕ) (metadata : List ℕ)
      → IsLive m
      → contains_id packages m.table id ≡ false
      → IsLive (create_stream q m id metadata).1
  unfolding create_stream
  create_stream-IsLive {m} id metadata v h = record {
    agrees = λ j. contains-create_entry m.table id j ∙ ap (◌||◌ (id == j)) (v.agrees j);
    distinct = (sym (v.agrees id) ∙ h, v.distinct);
  }

  end_stream-IsLive : {m : Mux q} (id : ℕ) → IsLive m → IsLive (end_stream q m id)
  unfolding end_stream
  end_stream-IsLive {m} id v = record {
    agrees = λ j. dropped j;
    distinct = remove_id-Distinct id m.live v.distinct;
  }
    where
      dropped :
          (j : ℕ)
          → contains_id packages
              (drop_receive packages m.table (record { id = id; queue_delay = none }))
              j
            ≡ mem_id j (remove_id id m.live)
      dropped j = ground (
        arith,
        contains_id-view_eq packages
            (drop_receive packages m.table (record { id = id; queue_delay = none })) j,
        contains_id-view_eq packages m.table j,
        view-drop_receive packages m.table (record { id = id; queue_delay = none }) j,
        mem_id-remove_id id j m.live,
        v.agrees j,
      )

  fresh_id-unused :
      (m : Mux q) (draws : List ℕ) (id : ℕ)
      → fresh_id q m draws ≡ some id
      → contains_id packages m.table id ≡ false
  unfolding fresh_id
  fresh_id-unused m [] id h = absurd (cc)
  fresh_id-unused m (key ∷ draws) id h = ground (arith, fresh_id-unused m draws id)

  open_request-IsLive :
      {m m' : Mux q} (draws metadata : List ℕ) (s : Stream)
      → IsLive m
      → open_request q m draws metadata ≡ some (s, m')
      → IsLive m'
  unfolding open_request
  open_request-IsLive {m} {m'} draws metadata s v h = elim (Option-cases (fresh_id q m draws)) [
    | inl e ↦ absurd (cc (rw (e, open_request) at h))
    | inr (id, e) ↦ subst IsLive (made id (rw (e, open_request) at h)) (
        create_stream-IsLive {m = enqueue q m (syn_frame id metadata)} id metadata
          (record { agrees = v.agrees; distinct = v.distinct }) (fresh_id-unused m draws id e))
  ]
    where
      made :
          (id : ℕ)
          → some (create_stream q (enqueue q m (syn_frame id metadata)) id metadata) ≡ some (s, m')
          → (create_stream q (enqueue q m (syn_frame id metadata)) id metadata).1 ≡ m'
      made id e = cc

  Effect-IsLive : {m m' : Mux q} {f : Frame} {now : ℕ} → IsLive m → Effect q m f now m' → IsLive m'
  Effect-IsLive {m} {m'} {f} v (opens c h t l) = record {
    agrees = λ j.
        rw (t, l)
          (contains-create_entry m.table f.header.stream_id j
            ∙ ap (◌||◌ (f.header.stream_id == j)) (v.agrees j));
    distinct = rw l (sym (v.agrees f.header.stream_id) ∙ h, v.distinct);
  }
  Effect-IsLive {m} {m'} {f} v (credits c t l) = record {
    agrees = λ j.
        rw (t, l)
          (contains-incr_send_window m.table f.header.stream_id j (from_le_bytes f.body)
            ∙ v.agrees j);
    distinct = rw l v.distinct;
  }
  Effect-IsLive {m} {m'} {f} {now} v (buffers c t l) = record {
    agrees = λ j. rw (t, l) (contains-send_to m.table f.header.stream_id j now f ∙ v.agrees j);
    distinct = rw l v.distinct;
  }
  Effect-IsLive v (leaves t l) = record {
    agrees = λ j. rw (t, l) (v.agrees j);
    distinct = rw l v.distinct;
  }

  -- What happens to a mux: an incoming frame that is no protocol error, an open request, and the end
  -- of the tasks of a stream, in any order.
  pub data Step (m : Mux q) : Mux q → Type 0 where
    frame : {m' : Mux q} (f : Frame) (now : ℕ) → on_frame q m f now ≡ ok m' → Step m m'
    open_stream :
        {m' : Mux q} (draws metadata : List ℕ) (s : Stream)
        → open_request q m draws metadata ≡ some (s, m')
        → Step m m'
    ends : (id : ℕ) → Step m (end_stream q m id)

  pub data Reach (m : Mux q) : Mux q → Type 0 where
    here : Reach m m
    then_step : {n o : Mux q} → Reach m n → Step n o → Reach m o

  Step-IsLive : {m m' : Mux q} → IsLive m → Step m m' → IsLive m'
  Step-IsLive {m} {m'} v (frame f now h) = Effect-IsLive v (on_frame-Effect q m m' f now h)
  Step-IsLive v (open_stream draws metadata s h) = open_request-IsLive draws metadata s v h
  Step-IsLive v (ends id) = end_stream-IsLive id v

  pub Reach-IsLive_from : {m m' : Mux q} → IsLive m → Reach m m' → IsLive m'
  Reach-IsLive_from v here = v
  Reach-IsLive_from v (then_step r s) = Step-IsLive (Reach-IsLive_from v r) s

  none_yet : (j : ℕ) → contains_id packages packages.table.empty j ≡ false
  unfolding contains_id
  none_yet j = rw (packages.table.get-empty j, contains_id)

  -- In every history of a mux that begins with an empty table and no stream, the ids that have an
  -- entry in the table are exactly those of the running streams, and no two running streams share
  -- an id.
  pub Reach-IsLive :
      {m m' : Mux q} → m.table ≡ packages.table.empty → m.live ≡ [] → Reach m m' → IsLive m'
  Reach-IsLive {m} t l r =
      Reach-IsLive_from (record { agrees = λ j. rw (t, l) (none_yet j); distinct = rw l tt }) r
