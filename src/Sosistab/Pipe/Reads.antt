-- ===== src/Sosistab/Pipe/Reads.antt =====
-- However the lower pipe cuts the sender's bytes into pieces, the reader gets the sender's data.
use geph.Base.{
  ℕ, suc, ◌≡◌, refl, sym, ap, subst, ◌∙◌, Bool, true, false, List, [], ◌∷◌, ◌++◌, length,
  length-append, append_assoc, append-nil, arith, if◌then◌else◌,
}
use geph.Sosistab.Crypto.{Crypto}
use geph.Sosistab.State.{State, hunk, sealed}
use geph.Sosistab.State.Parts.{Paired, length-hunk}
use geph.Sosistab.Pipe.{SosistabPipe, open_pipe, feed}
use geph.Sosistab.Pipe.Drains.{AreShort, wire, payloads, Reading, drain-Progress}

abbrev pub joined : List (List ℕ) → List ℕ
joined [] = []
joined (bs ∷ pieces) = bs ++ joined pieces

module _ (c : Crypto) where
  -- The bytes from below, one piece after the other.
  pub feed_all : SosistabPipe → List (List ℕ) → Bool × SosistabPipe
  feed_all p [] = (false, p)
  feed_all p (bs ∷ pieces) =
      let (broken, p') = feed c p bs in
      let (broken', q) = feed_all p' pieces in if broken then (true, p') else (broken', q)

  abbrev ReadingPipe : SosistabPipe → List ℕ → List ℕ → Type 0
  ReadingPipe p future total = Reading c p.state p.raw_read_buf p.read_buf future total

  feed-Progress :
      (p : SosistabPipe) (bs future total : List ℕ)
      → ReadingPipe p (bs ++ future) total
      → ((feed c p bs).0 ≡ false)
        × ReadingPipe (feed c p bs).1 future total
        × (future ≡ [] → ((feed c p bs).1.raw_read_buf ≡ []) × ((feed c p bs).1.read_buf ≡ total))
  unfolding feed
  feed-Progress p bs future total v =
      let g =
        drain-Progress c v.todo (suc (length (p.raw_read_buf ++ bs))) v.sender p.state
          (p.raw_read_buf ++ bs) p.read_buf future total (omega arith) v.paired
          (append_assoc p.raw_read_buf bs future ∙ v.wired) v.shorts v.made in
      (g.whole, g.reading, g.complete)

  feed_all_from :
      (p : SosistabPipe) (bs : List ℕ) (pieces : List (List ℕ)) (future total : List ℕ)
      → ReadingPipe p (bs ++ (joined pieces ++ future)) total
      → let (broken, q) = feed_all p (bs ∷ pieces) in
        (broken ≡ false)
        × ReadingPipe q future total
        × (future ≡ [] → (q.raw_read_buf ≡ []) × (q.read_buf ≡ total))
  unfolding feed_all
  feed_all_from p bs [] future total v =
      let (whole, reading, complete) = feed-Progress p bs future total v in
      rw whole (refl, reading, complete)
  feed_all_from p bs (next ∷ pieces) future total v =
      let (whole, reading, complete) =
        feed-Progress p bs (next ++ (joined pieces ++ future)) total (
          subst (λ z. ReadingPipe p (bs ++ z) total) (append_assoc next (joined pieces) future)
            v) in
      rw whole (feed_all_from (feed c p bs).1 next pieces future total reading)

  wire_nil : (s : State) (ps : List (List ℕ × Bool)) → [] ≡ wire c s ps → ps ≡ []
  unfolding wire
  wire_nil s [] e = refl
  wire_nil s ((bts, b) ∷ ps) e = absurd (
      omega (
        arith,
        ap length e,
        length-append (hunk c s bts b) (wire c (sealed c s bts) ps),
        length-hunk c s bts b,
      ))

  -- The hunks of a sender, of data and of padding and each shorter than 2^31, reach a paired reader in
  -- pieces of any sizes, which may end in the middle of a hunk: no read breaks off, and when all pieces
  -- are in, the reader has exactly the data, in order, without the padding, and keeps no raw bytes back.
  pub feed_all-wire :
      (s r : State) (ps : List (List ℕ × Bool)) (pieces : List (List ℕ))
      → Paired c s r
      → AreShort ps
      → joined pieces ≡ wire c s ps
      → let (broken, q) = feed_all (open_pipe r) pieces in
        (broken ≡ false) × (q.raw_read_buf ≡ []) × (q.read_buf ≡ payloads c ps)
  unfolding feed_all
  feed_all-wire s r ps [] v h e = (refl, refl, sym (ap (payloads c) (wire_nil s ps e)))
  feed_all-wire s r ps (bs ∷ pieces) v h e =
      let (whole, reading, complete) =
        feed_all_from (open_pipe r) bs pieces [] (payloads c ps) (record {
          sender = s;
          todo = ps;
          paired = v;
          wired = ap (λ z. bs ++ z) (append-nil (joined pieces)) ∙ e;
          shorts = h;
          made = refl;
        }) in
      let (raw, buf) = complete refl in (whole, raw, buf)

  -- A paired reader that has got a beginning of the bytes of hunks, each shorter than 2^31, in
  -- pieces of any sizes, meets no broken stream, and what it has read is a beginning of the
  -- sender's data.
  pub feed_all-prefix :
      (s r : State) (ps : List (List ℕ × Bool)) (bs : List ℕ) (pieces : List (List ℕ))
      (future : List ℕ)
      → Paired c s r
      → AreShort ps
      → bs ++ (joined pieces ++ future) ≡ wire c s ps
      → let (broken, q) = feed_all (open_pipe r) (bs ∷ pieces) in
        (broken ≡ false) × (rest : List ℕ) × (q.read_buf ++ rest ≡ payloads c ps)
  feed_all-prefix s r ps bs pieces future v h e =
      let (whole, reading, complete) =
        feed_all_from (open_pipe r) bs pieces future (payloads c ps)
          (record { sender = s; todo = ps; paired = v; wired = e; shorts = h; made = refl }) in
      (whole, payloads c reading.todo, reading.made)
