-- ===== src/Sillad/ConnTest/Echoes.antt =====
-- What the listener's loop makes of all that a peer may send.
use geph.Base.{
  ℕ, zero, suc, ◌+◌, ◌*◌, ◌<◌, ◌≡◌, List, [], ◌≤◌, take, drop, length-append, ◌∷◌, ◌++◌, some,
  length, arith, sym, ap, ap₂, dec_le, ◌∙◌, refl, subst, All, append_assoc,
}
use geph.Base.Bytes.{
  AreBytes, read_exact, read_exact-some, read_exact_le, read_exact_short, read_exact-append,
  from_be_bytes, to_be_bytes,
}
use geph.Sillad.ConnTest.{
  Tested, conn_handed, unexpected_eof, Side, writing, stopping, ping_bytes, echo_loop,
}
use geph.Sillad.ConnTest.RoundTrip.{flatten, IsPayload, echo_round}

-- The bytes of pings.
abbrev pub pings : List (List ℕ) → List ℕ
pings [] = []
pings (buf ∷ bufs) = ping_bytes buf ++ pings bufs

-- How a connection goes on behind the pings: with a size of zero, and the bytes that are left to be
-- read; with not even the two bytes of a size; or with a size that is not zero, and fewer bytes.
pub data Ending : List ℕ → Tested → Type 0 where
  handed : (rest : List ℕ) → Ending (0 ∷ 0 ∷ rest) (conn_handed rest)
  no_size : (tail : List ℕ) → length tail < 2 → Ending tail unexpected_eof
  short :
      (hi lo : ℕ) (rest : List ℕ)
      → length rest < 256 * hi + lo
      → Ending (hi ∷ lo ∷ rest) unexpected_eof

-- The incoming bytes are pings, and an ending; the payloads of the pings are what is written.
pub record IsEcho (incoming : List ℕ) (s : Side) : Type 0 where
  pub bufs : List (List ℕ)
  pub tail : List ℕ
  pub payloads : All IsPayload bufs
  pub came : incoming ≡ pings bufs ++ tail
  pub echoed : s.written ≡ flatten bufs
  pub ending : Ending tail s.outcome

stopping-IsEcho :
    (incoming : List ℕ) (t : Tested) → Ending incoming t → IsEcho incoming (stopping t)
unfolding stopping flatten
stopping-IsEcho incoming t e = record {
  bufs = [];
  tail = incoming;
  payloads = tt;
  came = refl;
  echoed = refl;
  ending = e;
}

writing-IsEcho :
    (buf more : List ℕ) (s : Side)
    → IsPayload buf
    → IsEcho more s
    → IsEcho (ping_bytes buf ++ more) (writing buf s)
unfolding writing flatten
writing-IsEcho buf more s h e = record {
  bufs = buf ∷ e.bufs;
  tail = e.tail;
  payloads = (h, e.payloads);
  came =
      ap (λ z. ping_bytes buf ++ z) e.came
      ∙ sym (append_assoc (ping_bytes buf) (pings e.bufs) e.tail);
  echoed = ap (λ z. buf ++ z) e.echoed;
  ending = e.ending;
}

sized : (hi lo : ℕ) → hi < 256 → lo < 256 → to_be_bytes 2 (256 * hi + lo) ≡ hi ∷ lo ∷ []
sized hi lo h l = ap₂ (λ a b. a ∷ b ∷ []) (omega arith) (omega arith)

size_of : (hi lo : ℕ) → from_be_bytes (hi ∷ lo ∷ []) ≡ 256 * hi + lo
size_of hi lo = omega arith

size_read : (hi lo : ℕ) (rest : List ℕ) → read_exact 2 (hi ∷ lo ∷ rest) ≡ some (hi ∷ lo ∷ [], rest)
size_read hi lo rest = read_exact-append 2 (hi ∷ lo ∷ []) rest refl

AreBytes-drop : (n : ℕ) (bs : List ℕ) → AreBytes bs → AreBytes (drop n bs)
AreBytes-drop zero bs h = h
AreBytes-drop (suc n) [] h = tt
AreBytes-drop (suc n) (b ∷ bs) h = AreBytes-drop n bs h.1

loop_no_size :
    (fuel : ℕ) (incoming : List ℕ)
    → length incoming < 2
    → echo_loop (suc fuel) incoming ≡ stopping unexpected_eof
unfolding echo_loop
loop_no_size fuel incoming l = rw (read_exact_short 2 incoming l, echo_loop) refl

ends_early :
    (fuel : ℕ) (incoming : List ℕ)
    → length incoming < 2
    → IsEcho incoming (echo_loop (suc fuel) incoming)
ends_early fuel incoming l =
    subst (λ s. IsEcho incoming s) (sym (loop_no_size fuel incoming l))
      (stopping-IsEcho incoming unexpected_eof (no_size incoming l))

module _ (fuel : ℕ) (incoming size_buf rest : List ℕ)
    (e : read_exact 2 incoming ≡ some (size_buf, rest)) where
  loop_handed :
      from_be_bytes size_buf ≡ 0 → echo_loop (suc fuel) incoming ≡ stopping (conn_handed rest)
  unfolding echo_loop
  loop_handed f = rw (e, f, echo_loop) refl

  loop_short :
      (n : ℕ)
      → from_be_bytes size_buf ≡ suc n
      → length rest < suc n
      → echo_loop (suc fuel) incoming ≡ stopping unexpected_eof
  unfolding echo_loop
  loop_short n f l = rw (e, f, read_exact_short (suc n) rest l, echo_loop) refl

module _ (fuel : ℕ)
    (again : (more : List ℕ)
      → length more < fuel
      → AreBytes more
      → IsEcho more (echo_loop fuel more)) where
  ping-IsEcho :
      (hi lo n : ℕ) (rest : List ℕ)
      → hi < 256
      → lo < 256
      → AreBytes rest
      → length rest < fuel
      → from_be_bytes (hi ∷ lo ∷ []) ≡ suc n
      → suc n ≤ length rest
      → IsEcho (hi ∷ lo ∷ rest) (echo_loop (suc fuel) (hi ∷ lo ∷ rest))
  unfolding ping_bytes
  ping-IsEcho hi lo n rest h l bytes lt f le =
      let payload : List ℕ = take (suc n) rest in
      let more : List ℕ = drop (suc n) rest in
      let got : read_exact (suc n) rest ≡ some (payload, more) = read_exact_le (suc n) rest le in
      let (split, left) = read_exact-some (suc n) rest payload more got in
      let size : length payload ≡ 256 * hi + lo =
        omega (arith, ap length split, length-append payload more, size_of hi lo) in
      let came : hi ∷ lo ∷ rest ≡ ping_bytes payload ++ more =
        ap (λ z. hi ∷ lo ∷ z) split
        ∙ sym (ap (λ z. (z ++ payload) ++ more) (ap (to_be_bytes 2) size ∙ sized hi lo h l)) in
      let step : echo_loop (suc fuel) (hi ∷ lo ∷ rest) ≡ writing payload (echo_loop fuel more) =
        echo_round fuel n (hi ∷ lo ∷ rest) (hi ∷ lo ∷ []) rest payload more (size_read hi lo rest) f
          got in
      subst (λ s. IsEcho (hi ∷ lo ∷ rest) s) (sym step)
        (subst (λ z. IsEcho z (writing payload (echo_loop fuel more))) (sym came)
          (writing-IsEcho payload more (echo_loop fuel more)
            (omega (arith, size_of hi lo), omega arith)
            (again more (omega arith) (AreBytes-drop (suc n) rest bytes))))

  round-IsEcho :
      (hi lo n : ℕ) (rest : List ℕ)
      → hi < 256
      → lo < 256
      → AreBytes rest
      → length rest < fuel
      → from_be_bytes (hi ∷ lo ∷ []) ≡ n
      → IsEcho (hi ∷ lo ∷ rest) (echo_loop (suc fuel) (hi ∷ lo ∷ rest))
  round-IsEcho hi lo zero rest h l bytes lt f =
      let step : echo_loop (suc fuel) (hi ∷ lo ∷ rest) ≡ stopping (conn_handed rest) =
        loop_handed fuel (hi ∷ lo ∷ rest) (hi ∷ lo ∷ []) rest (size_read hi lo rest) f in
      let zeros : 0 ∷ 0 ∷ rest ≡ hi ∷ lo ∷ rest =
        ap₂ (λ a b. a ∷ b ∷ rest) (omega arith) (omega arith) in
      subst (λ s. IsEcho (hi ∷ lo ∷ rest) s) (sym step)
        (stopping-IsEcho (hi ∷ lo ∷ rest) (conn_handed rest)
          (subst (λ z. Ending z (conn_handed rest)) zeros (handed rest)))
  round-IsEcho hi lo (suc n) rest h l bytes lt f = elim (dec_le (suc n) (length rest)) [
    | yes le ↦ ping-IsEcho hi lo n rest h l bytes lt f le
    | no gt ↦
        let step : echo_loop (suc fuel) (hi ∷ lo ∷ rest) ≡ stopping unexpected_eof =
          loop_short fuel (hi ∷ lo ∷ rest) (hi ∷ lo ∷ []) rest (size_read hi lo rest) n f
            (omega arith) in
        subst (λ s. IsEcho (hi ∷ lo ∷ rest) s) (sym step)
          (stopping-IsEcho (hi ∷ lo ∷ rest) unexpected_eof
            (short hi lo rest (omega (arith, size_of hi lo))))
  ]

-- Whatever bytes a peer sends, the listener's loop ends within as many rounds as there are bytes, and
-- one more. The bytes begin with pings, each a size of 1 to 65535 and as many bytes, and what the loop
-- has written are the payloads of those pings, in order. Behind the pings there is a size of zero, and
-- the connection is handed over with the bytes that follow; or there are fewer bytes than a size or
-- than the size before them says, and the loop ends with the error of an early end.
pub echo_loop-IsEcho :
    (fuel : ℕ) (incoming : List ℕ)
    → length incoming < fuel
    → AreBytes incoming
    → IsEcho incoming (echo_loop fuel incoming)
echo_loop-IsEcho zero incoming l h = absurd (omega arith)
echo_loop-IsEcho (suc fuel) [] l h = ends_early fuel [] (omega arith)
echo_loop-IsEcho (suc fuel) (b ∷ []) l h = ends_early fuel (b ∷ []) (omega arith)
echo_loop-IsEcho (suc fuel) (hi ∷ lo ∷ rest) l h =
    round-IsEcho fuel (echo_loop-IsEcho fuel) hi lo (from_be_bytes (hi ∷ lo ∷ [])) rest h.0 h.1.0
      h.1.1 (omega arith) refl
