-- ===== src/Exit/Proxy/Udp.antt =====
-- The framing of datagrams in `proxy_stream` of binaries/geph5-exit/src/proxy.rs: from the stream to the
-- socket (`up_loop`) and back (`dn_loop`). The timeouts and the rate limiter are left out.
use geph.Base.{
  ℕ, zero, suc, ◌+◌, ◌%◌, ◌^◌, ◌<◌, ◌≡◌, refl, sym, ap, ap₂, ◌∙◌, List, [], ◌∷◌, ◌++◌, append_assoc,
  none, some, length, take, length-take, map, arith,
}
use geph.Base.Bytes.{
  to_le_bytes, from_le_bytes, length-to_le_bytes, from-to_le_bytes, read_exact, read_exact-append,
}

-- One round of `dn_loop` with a datagram: the socket's `recv` cuts it to the buffer of 8190 bytes.
unfoldable pub dn_packet : List ℕ → List ℕ
dn_packet datagram =
    let packet = take 8190 datagram in to_le_bytes 2 (length packet % 2 ^ 16) ++ packet

unfoldable pub dn_loop : List (List ℕ) → List ℕ
dn_loop [] = []
dn_loop (d ∷ ds) = dn_packet d ++ dn_loop ds

-- `up_loop`: the datagrams that are sent until the stream ends, in at most so many rounds.
unfoldable pub up_loop : ℕ → List ℕ → List (List ℕ)
up_loop zero bytes = []
up_loop (suc rounds) bytes = elim (read_exact 2 bytes) [
  | none ↦ []
  | some (len_buf, rest) ↦ elim (read_exact (from_le_bytes len_buf) rest) [
    | none ↦ []
    | some (packet_buf, rest') ↦ packet_buf ∷ up_loop rounds rest'
  ]
]

up_loop_of :
    (rounds : ℕ) (bytes len_buf rest packet rest' : List ℕ)
    → read_exact 2 bytes ≡ some (len_buf, rest)
    → read_exact (from_le_bytes len_buf) rest ≡ some (packet, rest')
    → up_loop (suc rounds) bytes ≡ packet ∷ up_loop rounds rest'
unfolding up_loop
up_loop_of rounds bytes len_buf rest packet rest' e f = rw (e, f, up_loop) refl

up_loop-packet :
    (rounds : ℕ) (packet rest : List ℕ)
    → length packet < 2 ^ 16
    → up_loop (suc rounds) ((to_le_bytes 2 (length packet % 2 ^ 16) ++ packet) ++ rest)
      ≡ packet ∷ up_loop rounds rest
up_loop-packet rounds packet rest h =
    let small : length packet % 2 ^ 16 ≡ length packet = omega arith in
    let len_buf : List ℕ = to_le_bytes 2 (length packet) in
    ap (λ n. up_loop (suc rounds) ((to_le_bytes 2 n ++ packet) ++ rest)) small
    ∙ up_loop_of rounds _ len_buf (packet ++ rest) packet rest
        (ap (read_exact 2) (append_assoc len_buf packet rest)
          ∙ read_exact-append 2 len_buf (packet ++ rest)
              (sym (length-to_le_bytes 2 (length packet))))
        (ap (λ n. read_exact n (packet ++ rest)) (from-to_le_bytes 2 (length packet) (omega arith))
          ∙ read_exact-append (length packet) packet rest refl)

-- The frames that `dn_loop` writes are those that `up_loop` reads: every datagram comes out once, in
-- order, cut to its first 8190 bytes, and the stream is read on behind them.
pub up_loop-dn_loop :
    (ds : List (List ℕ)) (rounds : ℕ) (rest : List ℕ)
    → up_loop (length ds + rounds) (dn_loop ds ++ rest) ≡ map (take 8190) ds ++ up_loop rounds rest
unfolding dn_loop dn_packet
up_loop-dn_loop [] rounds rest = ap (λ n. up_loop n rest) (omega arith)
up_loop-dn_loop (d ∷ ds) rounds rest =
    let packet : List ℕ = take 8190 d in
    ap₂ up_loop (omega arith)
      (append_assoc (to_le_bytes 2 (length packet % 2 ^ 16) ++ packet) (dn_loop ds) rest)
    ∙ up_loop-packet (length ds + rounds) packet (dn_loop ds ++ rest)
        (omega (arith, length-take 8190 d))
    ∙ ap (◌∷◌ packet) (up_loop-dn_loop ds rounds rest)
