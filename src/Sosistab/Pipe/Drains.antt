-- ===== src/Sosistab/Pipe/Drains.antt =====
-- What one loop of decryptions makes of the bytes that have come in so far.
use geph.Base.{
  ℕ, zero, suc, ◌^◌, ◌<◌, ◌≡◌, ◌≢◌, refl, sym, ap, ◌∙◌, Bool, false, List, [], ◌∷◌, ◌++◌, length,
  drop, All, length-append, append_assoc, append-nil, split_append, prefix_append, drop-append,
  arith, dec_le,
}
use geph.Sosistab.Crypto.{Crypto}
use geph.Sosistab.State.{
  State, Kind, invalid_data, broken_pipe, would_block, failed, decrypt, hunk, sealed,
}
use geph.Sosistab.State.Parts.{Paired, next_receiver, payload, length-hunk}
use geph.Sosistab.State.RoundTrip.{decrypt-hunk, decrypt-hunk_cut, Paired-next}
use geph.Sosistab.Pipe.{Drained, stopped_by, drain}

abbrev pub AreShort : List (List ℕ × Bool) → Type 0
AreShort = All (λ p. length p.0 < 2 ^ 31)

module _ (c : Crypto) where
  -- The bytes of a list of hunks, each of data or of padding, and the data in them.
  unfoldable pub wire : State → List (List ℕ × Bool) → List ℕ
  wire s [] = []
  wire s ((bts, b) ∷ ps) = hunk c s bts b ++ wire (sealed c s bts) ps

  abbrev pub payloads : List (List ℕ × Bool) → List ℕ
  payloads [] = []
  payloads ((bts, b) ∷ ps) = payload c bts b ++ payloads ps

  -- A receiver in the middle of a stream: the hunks `todo` are still to come out of the raw bytes
  -- and of those not yet arrived, and with their data the decrypted data make up the whole.
  pub record Reading (r : State) (raw buf future total : List ℕ) : Type 0 where
    pub sender : State
    pub todo : List (List ℕ × Bool)
    pub paired : Paired c sender r
    pub wired : raw ++ future ≡ wire sender todo
    pub shorts : AreShort todo
    pub made : buf ++ payloads todo ≡ total

  -- After a loop of decryptions the stream is not broken, and where nothing is to come all is read.
  pub record Progress (d : Drained) (future total : List ℕ) : Type 0 where
    pub whole : d.broken ≡ false
    pub reading : Reading d.state d.raw d.buf future total
    pub complete : future ≡ [] → (d.raw ≡ []) × (d.buf ≡ total)

  decrypt_empty : (r : State) → decrypt c r [] ≡ failed invalid_data
  unfolding decrypt
  decrypt_empty r = refl

  stopped-Progress :
      (kind : Kind) (r : State) (raw buf future total : List ℕ)
      → kind ≢ broken_pipe
      → Reading r raw buf future total
      → (future ≡ [] → (raw ≡ []) × (buf ≡ total))
      → Progress (stopped_by kind r raw buf) future total
  stopped-Progress invalid_data r raw buf future total n v w = record {
    whole = refl;
    reading = v;
    complete = w;
  }
  stopped-Progress would_block r raw buf future total n v w = record {
    whole = refl;
    reading = v;
    complete = w;
  }
  stopped-Progress broken_pipe r raw buf future total n v w = absurd (n refl)

  nil_of_append : (xs ys : List ℕ) → xs ++ ys ≡ [] → xs ≡ []
  nil_of_append [] ys e = refl
  nil_of_append (x ∷ xs) ys e = absurd (cc)

  pub drain-Progress :
      (ps : List (List ℕ × Bool)) (fuel : ℕ) (s r : State) (raw buf future total : List ℕ)
      → length raw < fuel
      → Paired c s r
      → raw ++ future ≡ wire s ps
      → AreShort ps
      → buf ++ payloads ps ≡ total
      → Progress (drain c fuel r raw buf) future total
  unfolding drain wire
  drain-Progress ps zero s r raw buf future total f v w h m = absurd (omega arith)
  drain-Progress [] (suc fuel) s r raw buf future total f v w h m =
      let e : raw ≡ [] = nil_of_append raw future w in
      rw (ap (decrypt c r) e ∙ decrypt_empty r, drain)
        (stopped-Progress invalid_data r raw buf future total (λ z. cc)
          (record { sender = s; todo = []; paired = v; wired = w; shorts = tt; made = m })
          (λ z. (e, sym (append-nil buf) ∙ m)))
  drain-Progress ((bts, b) ∷ ps) (suc fuel) s r raw buf future total f v w h m =
      elim (dec_le (length (hunk c s bts b)) (length raw)) [
        | yes q ↦
            let (zs, e, e') =
              split_append raw future (hunk c s bts b) (wire (sealed c s bts) ps) w q in
            rw
              (
                ap (decrypt c r) e ∙ decrypt-hunk c s r bts zs b v h.0,
                drain,
                ap (drop (length (hunk c s bts b))) e
                    ∙ drop-append (length (hunk c s bts b)) (hunk c s bts b) zs refl,
              )
              (drain-Progress ps fuel (sealed c s bts) (next_receiver c r) zs
                (buf ++ payload c bts b) future total
                (omega
                  (arith, ap length e, length-append (hunk c s bts b) zs, length-hunk c s bts b))
                (Paired-next c s r bts v) e' h.1
                (append_assoc buf (payload c bts b) (payloads ps) ∙ m))
        | no q ↦
            let (kind, e, n) = decrypt-hunk_cut c s r bts b (length raw) v h.0 (omega arith) in
            rw
              (
                ap (decrypt c r) (
                      prefix_append raw future (hunk c s bts b) (wire (sealed c s bts) ps) w
                        (omega arith))
                    ∙ e,
                drain,
              )
              (stopped-Progress kind r raw buf future total n
                (record {
                  sender = s;
                  todo = (bts, b) ∷ ps;
                  paired = v;
                  wired = w;
                  shorts = h;
                  made = m;
                })
                (λ z. absurd (
                  omega (
                    arith,
                    ap length w,
                    ap length z,
                    length-append raw future,
                    length-append (hunk c s bts b) (wire (sealed c s bts) ps),
                  ))))
      ]
