-- ===== src/Picomux/BufferTable/View.antt =====
-- The table of buffers seen as a map from stream ids to queued frames and send window.
use mathlib.Core.List.{map-append}
use geph.Base.{
  ℕ, suc, ◌+◌, ◌-◌, ◌*◌, ◌≡◌, refl, sym, ap, ◌∙◌, false, List, [], ◌∷◌, ◌++◌, map, Option, none,
  some, ltb, if◌then◌else◌, Bool, true, false, length, ◌==◌, ==→eq, arith, Option-cases, Bool-cases,
  inl, inr, ℕ_discrete,
}
use geph.Picomux.Frame.{Frame}
use geph.Picomux.BufferTable.{
  Packages, init_window, max_window, BufferReceive, BufferTable, Window, never, blocked, taken,
  contains_id, create_entry, send_to, wait_send_window, incr_send_window, recv, drop_receive,
}

-- A stream's queued frames, oldest first, and its send window.
pub record Buffer : Type 0 where
  pub queued : List Frame
  pub window : ℕ

length-map {ℓ κ} :
    {A : Type ℓ} {B : Type κ} (f : A → B) (xs : List A) → length xs ≡ length (map f xs)
length-map f [] = refl
length-map f (x ∷ xs) = ap suc (length-map f xs)

abbrev pub has : Option Buffer → Bool
has none = false
has (some b) = true

-- What `send_to` leaves in a stream's buffer.
abbrev pub received : Option Buffer → Frame → Option Buffer
received none f = none
received (some b) f =
    if ltb (max_window * 2) (length b.queued)
    then some b
    else some (record b { queued = b.queued ++ (f ∷ []) })

-- What `incr_send_window` leaves in a stream's buffer.
abbrev pub credited : Option Buffer → ℕ → Option Buffer
credited none n = none
credited (some b) n = some (record b { window = b.window + n })

module _ (p : Packages) where
  open p use {chan, sem, table}

  abbrev pub frames_of : chan.Chan → List Frame
  frames_of c = map (λ e. e.0) (chan.contents c)

  abbrev pub buffer_of : Option (chan.Chan × sem.Sem) → Option Buffer
  buffer_of none = none
  buffer_of (some (q, s)) = some (record { queued = frames_of q; window = sem.permits s })

  unfoldable pub view : BufferTable p → ℕ → Option Buffer
  view t id = buffer_of (table.get id t)

  view-insert :
      (t : BufferTable p) (id j : ℕ) (q : chan.Chan) (s : sem.Sem)
      → view (table.insert id (q, s) t) j ≡ (
          if id == j
          then some (record { queued = frames_of q; window = sem.permits s })
          else view t j)
  unfolding view
  view-insert t id j q s = rw (table.get-insert j id (q, s) t) (ground arith)

  -- An operation that leaves the table alone, in the form of the laws below.
  view_kept :
      (t : BufferTable p) (id j : ℕ) {b : Option Buffer}
      → view t id ≡ b
      → view t j ≡ (if id == j then b else view t j)
  view_kept t id j {b} h = elim (Bool-cases (id == j)) [
    | inl e ↦ rw (e, ← ==→eq id j e) h
    | inr e ↦ rw e
  ]

  view-get :
      (t : BufferTable p) (id : ℕ) {o : Option (chan.Chan × sem.Sem)}
      → table.get id t ≡ o
      → view t id ≡ buffer_of o
  unfolding view
  view-get t id h = ap buffer_of h

  length-frames_of : (q : chan.Chan) → chan.len q ≡ length (frames_of q)
  length-frames_of q = chan.len-contents q ∙ length-map (λ e. e.0) (chan.contents q)

  pub contains_id-view_eq : (t : BufferTable p) (id : ℕ) → contains_id p t id ≡ has (view t id)
  unfolding contains_id view
  contains_id-view_eq t id = ground arith

  pub view-create_entry :
      (t : BufferTable p) (id j : ℕ)
      → view (create_entry p t id).1 j
        ≡ (if id == j then some (record { queued = []; window = init_window }) else view t j)
  unfolding create_entry
  view-create_entry t id j =
      rw (view-insert t id j chan.new (sem.new init_window), chan.contents-new, sem.permits-new)

  pub view-drop_receive :
      (t : BufferTable p) (r : BufferReceive) (j : ℕ)
      → view (drop_receive p t r) j ≡ (if r.id == j then none else view t j)
  unfolding drop_receive view
  view-drop_receive t r j = rw (table.get-remove j r.id t) (ground arith)

  pub view-send_to :
      (t : BufferTable p) (id j now : ℕ) (f : Frame)
      → view (send_to p t id f now) j ≡ (if id == j then received (view t id) f else view t j)
  unfolding send_to
  view-send_to t id j now f = elim (Option-cases (table.get id t)) [
    | inl e ↦ rw (e, send_to, view-get t id e) (view_kept t id j (view-get t id e))
    | inr ((q, s), e) ↦ elim (Bool-cases (ltb (max_window * 2) (chan.len q))) [
      | inl full ↦
          rw (e, send_to, view-get t id e, ← length-frames_of q, full)
            (view_kept t id j (view-get t id e))
      | inr room ↦ rw (
        e,
        send_to,
        view-get t id e,
        ← length-frames_of q,
        room,
        view-insert t id j (chan.push q (f, now)) s,
        chan.contents-push q (f, now),
        map-append (λ (x : Frame × ℕ). x.0) (chan.contents q) ((f, now) ∷ []),
      )
    ]
  ]

  pub view-incr_send_window :
      (t : BufferTable p) (id j n : ℕ)
      → view (incr_send_window p t id n) j ≡ (if id == j then credited (view t id) n else view t j)
  unfolding incr_send_window
  view-incr_send_window t id j n = elim (Option-cases (table.get id t)) [
    | inl e ↦ rw (e, incr_send_window, view-get t id e) (view_kept t id j (view-get t id e))
    | inr ((q, s), e) ↦ rw (
      e,
      incr_send_window,
      view-get t id e,
      view-insert t id j q (sem.release s n),
      sem.permits-release s n,
    )
  ]

  -- The three ways in which waiting for the send window can end.
  pub data Waits (t : BufferTable p) (id : ℕ) (w : Window (BufferTable p)) : Type 0 where
    unknown : view t id ≡ none → w ≡ never → Waits t id w
    exhausted : (b : Buffer) → view t id ≡ some b → b.window ≡ 0 → w ≡ blocked → Waits t id w
    granted :
        (b : Buffer) (n : ℕ) (t' : BufferTable p)
        → view t id ≡ some b
        → b.window ≡ suc n
        → w ≡ taken t'
        → ((j : ℕ) → view t' j ≡ (if id == j then some (record b { window = n }) else view t j))
        → Waits t id w

  pub wait_send_window-Waits : (t : BufferTable p) (id : ℕ) → Waits t id (wait_send_window p t id)
  unfolding wait_send_window
  wait_send_window-Waits t id = elim (Option-cases (table.get id t)) [
    | inl e ↦ unknown (view-get t id e) (rw (e, wait_send_window))
    | inr ((q, s), e) ↦ elim (ℕ_discrete (sem.permits s) 0) [
      | yes z ↦
          exhausted (record { queued = frames_of q; window = sem.permits s }) (view-get t id e) z
            (rw (e, wait_send_window) (rw (sem.acquire_none s z, wait_send_window)))
      | no nz ↦
          let (s', got, less) = sem.acquire_some s nz in
          granted (record { queued = frames_of q; window = sem.permits s }) (sem.permits s')
            (table.insert id (q, s') t) (view-get t id e) less
            (rw (e, wait_send_window) (rw (got, wait_send_window))) (λ j. view-insert t id j q s')
    ]
  ]

  -- What `recv` gives: the oldest queued frame, or nothing while there is none.
  pub data Receives (t : BufferTable p) (r : BufferReceive) (now : ℕ)
      (o : Option (Frame × BufferReceive × BufferTable p)) : Type 0 where
    idle : ((b : Buffer) → view t r.id ≡ some b → b.queued ≡ []) → o ≡ none → Receives t r now o
    oldest :
        (b : Buffer) (f : Frame) (fs : List Frame) (r' : BufferReceive) (t' : BufferTable p)
        → view t r.id ≡ some b
        → b.queued ≡ f ∷ fs
        → o ≡ some (f, r', t')
        → r'.id ≡ r.id
        → ((j : ℕ) → view t' j ≡ (if r.id == j then some (record b { queued = fs }) else view t j))
        → Receives t r now o

  recv-Receives_entry :
      (t : BufferTable p) (r : BufferReceive) (now : ℕ) (q : chan.Chan) (s : sem.Sem)
      (es : List (Frame × ℕ))
      → table.get r.id t ≡ some (q, s)
      → chan.contents q ≡ es
      → Receives t r now (recv p t r now)
  unfolding recv
  recv-Receives_entry t r now q s [] e h =
      idle (λ b hb. none_queued b (sym hb ∙ view-get t r.id e))
        (rw (e, recv) (rw (chan.pop_empty q h, recv)))
    where
      none_queued :
          (b : Buffer)
          → some b ≡ some (record { queued = frames_of q; window = sem.permits s })
          → b.queued ≡ []
      none_queued b hb = ground (arith, ap (map (λ (x : Frame × ℕ). x.0)) h)
  recv-Receives_entry t r now q s ((f, at) ∷ es) e h =
      let (q', got, rest) = chan.pop_cons q (f, at) es h in
      oldest (record { queued = frames_of q; window = sem.permits s }) f (map (λ e. e.0) es)
        (record r { queue_delay = some (now - at) }) (table.insert r.id (q', s) t)
        (view-get t r.id e) (rw h) (rw (e, recv) (rw (got, recv))) refl
        (λ j. view-insert t r.id j q' s ∙ rw rest)

  pub recv-Receives :
      (t : BufferTable p) (r : BufferReceive) (now : ℕ) → Receives t r now (recv p t r now)
  unfolding recv
  recv-Receives t r now = elim (Option-cases (table.get r.id t)) [
    | inl e ↦ idle (λ b h. absurd (cc (view-get t r.id e))) (rw (e, recv))
    | inr ((q, s), e) ↦ recv-Receives_entry t r now q s (chan.contents q) e refl
  ]
