-- ===== src/Sosistab/State/RoundTrip.antt =====
-- What a paired receiver makes of a hunk: the whole of it, or a part that has arrived so far.
use geph.Base.{
  ℕ, ◌+◌, ◌-◌, ◌^◌, ◌≤◌, ◌<◌, ◌≡◌, ◌≢◌, sym, ap, ◌∙◌, Bool, List, ◌++◌, length, take, length-append,
  length-take, take-append_ge, append_assoc, arith, lt→ltb, dec_lt,
}
use geph.Sosistab.Crypto.{Crypto}
use geph.Sosistab.State.{
  State, Kind, failed, decrypted, invalid_data, would_block, broken_pipe, hunk, sealed, decrypt,
}
use geph.Sosistab.State.Parts.{
  Paired, next_receiver, payload, sealed_length, sealed_body, length-parts, hunk-parts, length-hunk,
  decrypt-Paired, decrypt_body_whole, decrypt_body_cut,
}

module _ (c : Crypto) where
  -- A hunk with less than 2^31 bytes, behind which anything may follow, is decrypted as a whole by
  -- a receiver paired with its sender: its length is taken off the input, its data (nothing, for
  -- padding) is the output, and the receiver counts it.
  pub decrypt-hunk :
      (s r : State) (bts rest : List ℕ) (b : Bool)
      → Paired c s r
      → length bts < 2 ^ 31
      → decrypt c r (hunk c s bts b ++ rest)
        ≡ decrypted (length (hunk c s bts b)) (payload c bts b) (next_receiver c r)
  decrypt-hunk s r bts rest b v h =
      ap (decrypt c r) together
      ∙ decrypt-Paired c s r bts (body.0 ++ (body.1 ++ rest)) b v enough
      ∙ decrypt_body_whole c s r bts rest b v h
      ∙ ap (λ n. decrypted n (payload c bts b) (next_receiver c r)) (sym (length-hunk c s bts b))
    where
      head : List ℕ × List ℕ
      head = sealed_length c s bts b

      body : List ℕ × List ℕ
      body = sealed_body c s bts

      together : hunk c s bts b ++ rest ≡ head.0 ++ (head.1 ++ (body.0 ++ (body.1 ++ rest)))
      together =
          rw (hunk-parts c s bts b, append_assoc head.0, append_assoc head.1, append_assoc body.0)

      enough : 4 ≤ length (body.0 ++ (body.1 ++ rest))
      enough = omega (
        arith,
        (length-parts c s bts b).3,
        length-append body.0 (body.1 ++ rest),
        length-append body.1 rest,
      )

  -- Both ends stay paired when one has sealed a hunk and the other has decrypted it.
  pub Paired-next :
      (s r : State) (bts : List ℕ) → Paired c s r → Paired c (sealed c s bts) (next_receiver c r)
  unfolding sealed next_receiver
  Paired-next s r bts v = record { key = v.key; nonce = ap (λ n. n + 2) v.nonce }

  short : (r : State) (bs : List ℕ) → length bs < 24 → decrypt c r bs ≡ failed invalid_data
  unfolding decrypt
  short r bs h = rw (lt→ltb (length bs) 24 h)

  -- A hunk with less than 2^31 bytes, cut off anywhere before its end, is no broken stream for a
  -- receiver paired with its sender: the error is not the one for a broken pipe.
  pub decrypt-hunk_cut :
      (s r : State) (bts : List ℕ) (b : Bool) (k : ℕ)
      → Paired c s r
      → length bts < 2 ^ 31
      → k < length (hunk c s bts b)
      → (kind : Kind) × (decrypt c r (take k (hunk c s bts b)) ≡ failed kind) × (kind ≢ broken_pipe)
  decrypt-hunk_cut s r bts b k v h l = elim (dec_lt k 24) [
    | yes p ↦ (invalid_data, short r (take k (hunk c s bts b)) (few p), λ e. cc)
    | no p ↦ (
      would_block,
      ap (decrypt c r) (cut (omega arith))
          ∙ decrypt-Paired c s r bts (take (k - 20) tail) b v
              (omega (arith, length-take (k - 20) tail, length-tail))
          ∙ decrypt_body_cut c r (take (k - 20) tail) (length bts) b h
              (omega (arith, length-take (k - 20) tail, length-tail, length-hunk c s bts b)),
      λ e. cc,
    )
  ]
    where
      head : List ℕ × List ℕ
      head = sealed_length c s bts b

      tail : List ℕ
      tail = (sealed_body c s bts).0 ++ (sealed_body c s bts).1

      few : k < 24 → length (take k (hunk c s bts b)) < 24
      few p = omega (arith, length-take k (hunk c s bts b))

      length-tail : length tail ≡ length bts + 16
      length-tail =
          let p = length-parts c s bts b in
          omega (arith, p.2, p.3, length-append (sealed_body c s bts).0 (sealed_body c s bts).1)

      cut : 24 ≤ k → take k (hunk c s bts b) ≡ head.0 ++ (head.1 ++ take (k - 20) tail)
      cut q =
          let p = length-parts c s bts b in
          ap (take k) (hunk-parts c s bts b)
          ∙ take-append_ge k head.0 (head.1 ++ tail) (omega (arith, p.0))
          ∙ ap (λ z. head.0 ++ z)
              (take-append_ge (k - length head.0) head.1 tail (omega (arith, p.0, p.1))
                ∙ ap (λ n. head.1 ++ take n tail) (omega (arith, p.0, p.1)))
