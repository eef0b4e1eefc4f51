-- ===== src/Picomux/Stream/Deliver.antt =====
-- What the sender and the receiver of one direction of a stream keep between them.
use geph.Base.{
  ℕ, ◌+◌, ◌≤◌, ◌≡◌, refl, sym, ap, ◌∙◌, true, List, [], ◌∷◌, ◌++◌, Option, none, some, length,
  length-append, append_assoc, arith, ==_refl,
}
use geph.Base.Bytes.{from_le_bytes}
use geph.Picomux.Frame.{Frame}
use geph.Picomux.BufferTable.{
  Packages, init_window, max_window, BufferReceive, BufferTable, taken, send_to, wait_send_window,
  incr_send_window, recv,
}
use geph.Picomux.BufferTable.View.{
  Buffer, view, view-create_entry, view-send_to, view-incr_send_window, Waits, unknown, exhausted,
  granted, wait_send_window-Waits, Receives, idle, oldest, recv-Receives,
}
use geph.Picomux.Stream.{Receiver, round, next}
use geph.Picomux.Stream.Window.{InBounds, start-InBounds, round-InBounds, credit_of, round-credit}
use geph.Picomux.Stream.Link.{
  Link, opened, enqueued, Step, send, arrive, consume, credit, elsewhere, Reach, here, then_step,
}

module _ (p : Packages) (id : ℕ) where
  abbrev pub credits : List Frame → ℕ
  credits [] = 0
  credits (m ∷ ms) = from_le_bytes m.body + credits ms

  -- The receiver's count of the sender's credit is exact: what the sender may still send, what is
  -- under way in either direction and what is queued add up to it; and no frame is lost, doubled
  -- or moved.
  pub record Inv (l : Link p id) : Type 0 where
    pub sending : Buffer
    pub receiving : Buffer
    pub near_is : view p l.near id ≡ some sending
    pub far_is : view p l.far id ≡ some receiving
    pub bounds : InBounds l.rx
    pub balance :
        l.rx.remote_window
        ≡ sending.window + length l.psh + length receiving.queued + credits l.more
    pub order : l.sent ≡ l.delivered ++ (receiving.queued ++ l.psh)

  credits-enqueued :
      (ms : List Frame) (m : Option Frame) → credits (enqueued ms m) ≡ credits ms + credit_of m
  credits-enqueued ms none = omega arith
  credits-enqueued [] (some f) = omega arith
  credits-enqueued (m ∷ ms) (some f) = omega (arith, credits-enqueued ms (some f))

  opened-Inv : (t u : BufferTable p) → Inv (opened p id t u)
  opened-Inv t u = record {
    sending = record { queued = []; window = init_window };
    receiving = record { queued = []; window = init_window };
    near_is = rw (view-create_entry p t id id, ==_refl id);
    far_is = rw (view-create_entry p u id id, ==_refl id);
    bounds = start-InBounds;
    balance = omega arith;
    order = refl;
  }

  send-Inv :
      {l : Link p id} (v : Inv l) (f : Frame) (t : BufferTable p)
      → wait_send_window p l.near id ≡ taken t
      → Waits p l.near id (wait_send_window p l.near id)
      → Inv (record l { near = t; psh = l.psh ++ (f ∷ []); sent = l.sent ++ (f ∷ []) })
  send-Inv {l} v f t w (unknown e w') = absurd (cc)
  send-Inv {l} v f t w (exhausted b e z w') = absurd (cc)
  send-Inv {l} v f t w (granted b n t' e g w' law) =
      let same : some b ≡ some v.sending = sym e ∙ v.near_is in
      record {
        sending = record v.sending { window = n };
        receiving = v.receiving;
        near_is = ground (arith, law id);
        far_is = v.far_is;
        bounds = v.bounds;
        balance = ground (arith, length-append l.psh (f ∷ []));
        order = rw (v.order, append_assoc l.delivered, append_assoc v.receiving.queued);
      }

  arrive-Inv :
      {l : Link p id} (v : Inv l) (f : Frame) (fs : List Frame) (now : ℕ)
      → l.psh ≡ f ∷ fs
      → Inv (record l { psh = fs; far = send_to p l.far id f now })
  arrive-Inv {l} v f fs now e = record {
    sending = v.sending;
    receiving = record v.receiving { queued = v.receiving.queued ++ (f ∷ []) };
    near_is = v.near_is;
    far_is = ground (arith, view-send_to p l.far id id now f, ap length e);
    bounds = v.bounds;
    balance = omega (arith, ap length e, length-append v.receiving.queued (f ∷ []));
    order = rw (v.order, e, append_assoc v.receiving.queued);
  }

  credit-Inv :
      {l : Link p id} (v : Inv l) (m : Frame) (ms : List Frame)
      → l.more ≡ m ∷ ms
      → Inv (record l { more = ms; near = incr_send_window p l.near id (from_le_bytes m.body) })
  credit-Inv {l} v m ms e = record {
    sending = record v.sending { window = v.sending.window + from_le_bytes m.body };
    receiving = v.receiving;
    near_is = ground (arith, view-incr_send_window p l.near id id (from_le_bytes m.body));
    far_is = v.far_is;
    bounds = v.bounds;
    balance = omega (arith, ap credits e);
    order = v.order;
  }

  consume-Inv :
      {l : Link p id} (v : Inv l) (r r' : BufferReceive) (f : Frame) (t : BufferTable p)
      (now estimate : ℕ) (rx' : Receiver) (m : Option Frame)
      → r.id ≡ id
      → recv p l.far r now ≡ some (f, r', t)
      → round id l.rx f true estimate ≡ next rx' m
      → Receives p l.far r now (recv p l.far r now)
      → Inv (record l {
        far = t;
        rx = rx';
        more = enqueued l.more m;
        delivered = l.delivered ++ (f ∷ []);
      })
  consume-Inv {l} v r r' f t now estimate rx' m ri e o (idle h e') = absurd (cc)
  consume-Inv {l} v r r' f t now estimate rx' m ri e o (oldest b g gs s' t' eb eq e' si law) =
      let same : some b ≡ some v.receiving = sym eb ∙ rw ri v.far_is in
      let queue : v.receiving.queued ≡ f ∷ gs = ground arith in
      record {
        sending = v.sending;
        receiving = record v.receiving { queued = gs };
        near_is = v.near_is;
        far_is = ground (arith, law id);
        bounds = round-InBounds id l.rx rx' f true estimate m v.bounds o;
        balance = omega (
          arith,
          round-credit id l.rx rx' f true estimate m v.bounds o,
          ap length queue,
          credits-enqueued l.more m,
        );
        order = rw (v.order, queue, append_assoc l.delivered);
      }

  Step-Inv : {l m : Link p id} → Inv l → Step p id l m → Inv m
  Step-Inv {l} v (send f t e w) = send-Inv v f t w (wait_send_window-Waits p l.near id)
  Step-Inv {l} v (arrive f fs now e) = arrive-Inv v f fs now e
  Step-Inv {l} v (consume r r' f t now estimate rx' m ri e o) =
      consume-Inv v r r' f t now estimate rx' m ri e o (recv-Receives p l.far r now)
  Step-Inv {l} v (credit m ms e) = credit-Inv v m ms e
  Step-Inv {l} v (elsewhere t u e f) = record {
    sending = v.sending;
    receiving = v.receiving;
    near_is = e ∙ v.near_is;
    far_is = f ∙ v.far_is;
    bounds = v.bounds;
    balance = v.balance;
    order = v.order;
  }

  Reach-Inv : {l m : Link p id} → Inv l → Reach p id l m → Inv m
  Reach-Inv v here = v
  Reach-Inv v (then_step r s) = Step-Inv (Reach-Inv v r) s

  -- On a stream that both ends have entered in their tables, whatever the order of the steps, the
  -- estimates, the times and the other streams of the two muxes: the receiving buffer is there, the
  -- frames sent are exactly those delivered, queued and under way, in that order, and at most
  -- `max_window` of them are not yet delivered.
  pub deliver_in_order :
      (t u : BufferTable p) {l : Link p id}
      → Reach p id (opened p id t u) l
      → (b : Buffer) × (view p l.far id ≡ some b)
        × (l.sent ≡ l.delivered ++ (b.queued ++ l.psh))
        × (length b.queued + length l.psh ≤ max_window)
  deliver_in_order t u {l} r =
      let v : Inv l = Reach-Inv (opened-Inv t u) r in (v.receiving, v.far_is, v.order, omega arith)

  -- The credit loop cannot run dry: after any steps on a stream that both ends have entered in
  -- their tables, when no data frame and no credit is under way and the receiving buffer is empty,
  -- the sender is not kept waiting.
  pub send_when_quiet :
      (t u : BufferTable p) {l : Link p id}
      → Reach p id (opened p id t u) l
      → l.psh ≡ []
      → l.more ≡ []
      → ((b : Buffer) → view p l.far id ≡ some b → b.queued ≡ [])
      → (t' : BufferTable p) × (wait_send_window p l.near id ≡ taken t')
  send_when_quiet t u {l} r no_psh no_more drained =
      grants (Reach-Inv (opened-Inv t u) r) (wait_send_window-Waits p l.near id)
    where
      grants :
          Inv l
          → Waits p l.near id (wait_send_window p l.near id)
          → (t' : BufferTable p) × (wait_send_window p l.near id ≡ taken t')
      grants v (unknown e w) = absurd (cc (v.near_is))
      grants v (exhausted b e z w) =
          let same : some b ≡ some v.sending = sym e ∙ v.near_is in
          let none_left : v.sending.window ≡ 0 = ground arith in
          absurd (
            omega (
              arith,
              ap length no_psh,
              ap credits no_more,
              ap length (drained v.receiving v.far_is),
            ))
      grants v (granted b n t' e g w law) = (t', w)
