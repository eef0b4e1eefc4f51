-- ===== src/Sillad/ConnTest/RoundTrip.antt =====
-- The two sides of the test against each other, and either side against any other.
use geph.Base.{
  ℕ, zero, suc, ◌<◌, ◌≡◌, ◌^◌, refl, sym, ap, ap₂, ◌∙◌, List, [], ◌∷◌, ◌++◌, Option, none, some,
  length, append_assoc, All, arith, Option-cases, inl, inr, Bool-cases,
}
use geph.Base.Bytes.{
  to_be_bytes, from_be_bytes, read_exact, read_exact-append, read_exact-some, bytes_eq,
  bytes_eq_refl, bytes_eq→eq, length-to_be_bytes, from-to_be_bytes,
}
use geph.Sillad.ConnTest.{
  conn_handed, unexpected_eof, Side, writing, stopping, ping_bytes, dial, echo_loop, check_echo,
}

unfoldable pub flatten : List (List ℕ) → List ℕ
flatten [] = []
flatten (buf ∷ bufs) = buf ++ flatten bufs

-- What the dialer writes in the course of a test that it passes.
unfoldable pub script : List (List ℕ) → List ℕ
script [] = 0 ∷ 0 ∷ []
script (buf ∷ bufs) = ping_bytes buf ++ script bufs

-- The payload of a ping has a size that its two bytes hold, and that is not the end's.
abbrev pub IsPayload : List ℕ → Type 0
IsPayload buf = (0 < length buf) × (length buf < 256 ^ 2)

check_echo_same : (buf : List ℕ) (next : Side) → check_echo buf buf next ≡ next
unfolding check_echo
check_echo_same buf next = rw (bytes_eq_refl buf) refl

check_echo_passed :
    (buf echo : List ℕ) (next : Side) (rest : List ℕ)
    → (check_echo buf echo next).outcome ≡ conn_handed rest
    → (buf ≡ echo) × (next.outcome ≡ conn_handed rest)
unfolding check_echo stopping
check_echo_passed buf echo next rest h = elim (Bool-cases (bytes_eq buf echo)) [
  | inl e ↦ (bytes_eq→eq buf echo e, ground arith)
  | inr e ↦ absurd (ground arith)
]

dial-flatten :
    (bufs : List (List ℕ)) (rest : List ℕ)
    → dial bufs (flatten bufs ++ rest)
      ≡ record { written = script bufs; outcome = conn_handed rest }
unfolding dial flatten script writing stopping
dial-flatten [] rest = refl
dial-flatten (buf ∷ bufs) rest =
    rw
      (
        append_assoc buf (flatten bufs) rest,
        read_exact-append (length buf) buf (flatten bufs ++ rest) refl,
        check_echo_same buf (dial bufs (flatten bufs ++ rest)),
      )
      (ap (writing (ping_bytes buf)) (dial-flatten bufs rest))

-- The outcome after the echo of one ping has been read, or not.
abbrev after_echo : List ℕ → List (List ℕ) → Option (List ℕ × List ℕ) → Side
after_echo buf bufs got = elim got [
  | none ↦ stopping unexpected_eof
  | some (echo, rest) ↦ check_echo buf echo (dial bufs rest)
]

-- The dialer hands over the connection only where what came in begins with the payloads of all its
-- pings, in order and unchanged; the bytes behind them are left to be read.
pub dial_passed :
    (bufs : List (List ℕ)) (incoming rest : List ℕ)
    → (dial bufs incoming).outcome ≡ conn_handed rest
    → incoming ≡ flatten bufs ++ rest
unfolding dial flatten writing stopping
dial_passed [] incoming rest h = cc
dial_passed (buf ∷ bufs) incoming rest h = elim (Option-cases (read_exact (length buf) incoming)) [
  | inl e ↦
      let k : unexpected_eof ≡ conn_handed rest =
        sym (ap (λ got. (after_echo buf bufs got).outcome) e) ∙ h in
      absurd (cc)
  | inr ((echo, more), e) ↦
      let k : (check_echo buf echo (dial bufs more)).outcome ≡ conn_handed rest =
        sym (ap (λ got. (after_echo buf bufs got).outcome) e) ∙ h in
      let (same, later) = check_echo_passed buf echo (dial bufs more) rest k in
      let (split, len) = read_exact-some (length buf) incoming echo more e in
      split
      ∙ ap₂ ◌++◌ (sym same) (dial_passed bufs more rest later)
      ∙ sym (append_assoc buf (flatten bufs) rest)
]

pub echo_round :
    (fuel n : ℕ) (incoming size_buf rest payload more : List ℕ)
    → read_exact 2 incoming ≡ some (size_buf, rest)
    → from_be_bytes size_buf ≡ suc n
    → read_exact (suc n) rest ≡ some (payload, more)
    → echo_loop (suc fuel) incoming ≡ writing payload (echo_loop fuel more)
unfolding echo_loop
echo_round fuel n incoming size_buf rest payload more e f g = rw (e, f, g, echo_loop) refl

-- One round of the listener, on a ping.
echo_loop-ping :
    (fuel : ℕ) (buf rest : List ℕ)
    → IsPayload buf
    → echo_loop (suc fuel) (ping_bytes buf ++ rest) ≡ writing buf (echo_loop fuel rest)
unfolding ping_bytes
echo_loop-ping fuel [] rest h = absurd (omega (arith, h.0))
echo_loop-ping fuel (b ∷ bs) rest h =
    let size_buf : List ℕ = to_be_bytes 2 (length (b ∷ bs)) in
    echo_round fuel (length bs) _ size_buf ((b ∷ bs) ++ rest) (b ∷ bs) rest
      (ap (read_exact 2) (append_assoc size_buf (b ∷ bs) rest)
        ∙ read_exact-append 2 size_buf ((b ∷ bs) ++ rest)
            (sym (length-to_be_bytes 2 (length (b ∷ bs)))))
      (from-to_be_bytes 2 (length (b ∷ bs)) h.1)
      (read_exact-append (length (b ∷ bs)) (b ∷ bs) rest refl)

-- The listener on what a dialer writes, and the application's bytes behind it.
echo_loop-script :
    (fuel : ℕ) (bufs : List (List ℕ)) (data_after : List ℕ)
    → length bufs < fuel
    → All IsPayload bufs
    → echo_loop fuel (script bufs ++ data_after)
      ≡ record { written = flatten bufs; outcome = conn_handed data_after }
unfolding script flatten echo_loop stopping writing
echo_loop-script zero bufs data_after l h = absurd (omega arith)
echo_loop-script (suc fuel) [] data_after l h =
    rw (echo_loop, read_exact-append 2 (0 ∷ 0 ∷ []) data_after refl) refl
echo_loop-script (suc fuel) (buf ∷ bufs) data_after l h =
    rw (append_assoc (ping_bytes buf) (script bufs) data_after) (
      echo_loop-ping fuel buf (script bufs ++ data_after) h.0
      ∙ ap (writing buf) (echo_loop-script fuel bufs data_after (omega arith) h.1))

-- A dialer with any payloads of 1 to 65535 bytes against the listener, each reading what the other
-- writes: the listener echoes every ping, both hand over the connection, and the first byte that each
-- side's application reads is the first that the other's has written.
pub dial-echo_loop :
    (bufs : List (List ℕ)) (up down : List ℕ) (fuel : ℕ)
    → All IsPayload bufs
    → length bufs < fuel
    → (dial bufs ((echo_loop fuel (script bufs ++ up)).written ++ down)
        ≡ record { written = script bufs; outcome = conn_handed down })
      × (echo_loop fuel ((dial bufs (flatten bufs ++ down)).written ++ up)
          ≡ record { written = flatten bufs; outcome = conn_handed up })
dial-echo_loop bufs up down fuel h l =
    let listening = echo_loop-script fuel bufs up l h in
    let dialing = dial-flatten bufs down in
    (
      ap (λ (s : Side). dial bufs (s.written ++ down)) listening ∙ dialing,
      ap (λ (s : Side). echo_loop fuel (s.written ++ up)) dialing ∙ listening,
    )
