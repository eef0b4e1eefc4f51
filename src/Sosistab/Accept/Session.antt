-- ===== src/Sosistab/Accept/Session.antt =====
-- A dialer and a listener with the same cookie come to a session in which each can read the other.
use geph.Base.{
  ℕ, ◌^◌, ◌≤◌, ◌<◌, ◌≡◌, refl, sym, ap, ◌∙◌, Bool, true, false, List, [], ◌++◌, none, some, length,
  append-nil, subst, arith, ltb, not,
}
use geph.Base.Bytes.{read_exact-append}
use geph.Sosistab.Crypto.{Crypto}
use geph.Sosistab.State.{ObfsParams, State, new, up_label, dn_label}
use geph.Sosistab.State.Parts.{Paired}
use geph.Sosistab.Dedup.{Dedup, insert, contains}
use geph.Sosistab.Handshake.{Cookie, Handshake, Fits, encrypt, decrypt}
use geph.Sosistab.Handshake.Wire.{length-encrypt, decrypt-encrypt}
use geph.Sosistab.Accept.{
  wait_interval, abs_diff, Draws, received, established, bytes_discrete, my_handshake, receive,
  check_padding, admit, answer, verified, accept, hello, dial_send, confirmed, dial,
}

module _ (c : Crypto) where
  -- Draws as the code makes them: twelve bytes of nonce, and a padding whose length fits its field.
  pub record AreDrawn (d : Draws) : Type 0 where
    pub nonce_fits : length d.nonce ≡ 12
    pub padding_fits : length d.padding < 2 ^ 64

  Fits-my_handshake :
      (d : Draws) (timestamp : ℕ) (responding_to : List ℕ)
      → AreDrawn d
      → timestamp < 2 ^ 64
      → length responding_to ≡ 32
      → Fits (my_handshake c d timestamp responding_to)
  unfolding my_handshake
  Fits-my_handshake d timestamp responding_to v t r = record {
    eph_pk_fits = c.length-public_key d.eph_sk;
    timestamp_fits = t;
    padding_len_fits = v.padding_fits;
    padding_hash_fits = c.length-hash d.padding;
    responding_to_fits = r;
  }

  receive_of :
      (k : Cookie) (is_server : Bool) (bs rest : List ℕ) (theirs : Handshake)
      → 140 ≡ length bs
      → decrypt c bs k is_server ≡ some theirs
      → receive c k is_server (bs ++ rest) ≡ received bs theirs rest
  unfolding receive
  receive_of k is_server bs rest theirs n e = rw (read_exact-append 140 bs rest n, e, receive)

  receive-encrypt :
      (k : Cookie) (is_server : Bool) (h : Handshake) (nonce rest : List ℕ)
      → Fits h
      → length nonce ≡ 12
      → receive c k is_server (encrypt c h k is_server nonce ++ rest)
        ≡ received (encrypt c h k is_server nonce) h rest
  receive-encrypt k is_server h nonce rest v n =
      receive_of k is_server (encrypt c h k is_server nonce) rest h
        (sym (length-encrypt c h k is_server nonce v n)) (decrypt-encrypt c h k is_server nonce v n)

  check_padding_of :
      (theirs : Handshake) (padding rest : List ℕ)
      → theirs.padding_len ≡ length padding
      → c.hash padding ≡ theirs.padding_hash
      → check_padding c theirs (padding ++ rest) ≡ none
  unfolding check_padding
  check_padding_of theirs padding rest n e =
      rw (read_exact-append theirs.padding_len padding rest n, check_padding) (ground arith)

  check_padding-my_handshake :
      (d : Draws) (timestamp : ℕ) (responding_to : List ℕ)
      → check_padding c (my_handshake c d timestamp responding_to) d.padding ≡ none
  unfolding my_handshake
  check_padding-my_handshake d timestamp responding_to =
      let theirs : Handshake = my_handshake c d timestamp responding_to in
      subst (λ z. check_padding c theirs z ≡ none) (append-nil d.padding)
        (check_padding_of theirs d.padding [] refl refl)

  responding_to-my_handshake :
      (d : Draws) (timestamp : ℕ) (hash : List ℕ)
      → (my_handshake c d timestamp hash).responding_to ≡ hash
  unfolding my_handshake
  responding_to-my_handshake d timestamp hash = refl

  admit_of :
      (dedup : Dedup (List ℕ)) (opened instant : ℕ) (hash : List ℕ) (theirs : Handshake)
      → abs_diff theirs.timestamp opened ≤ wait_interval
      → contains bytes_discrete dedup hash ≡ false
      → admit c dedup opened instant hash theirs ≡ (none, insert bytes_discrete dedup hash instant)
  unfolding admit
  admit_of dedup opened instant hash theirs t s = rw (recent, s)
    where
      recent : ltb wait_interval (abs_diff theirs.timestamp opened) ≡ false
      recent = ground arith

  verified_of :
      (dedup : Dedup (List ℕ)) (k : Cookie) (d : Draws) (opened instant : ℕ) (bs rest : List ℕ)
      (theirs : Handshake)
      → check_padding c theirs rest ≡ none
      → abs_diff theirs.timestamp opened ≤ wait_interval
      → contains bytes_discrete dedup (c.hash bs) ≡ false
      → verified c dedup k d opened instant (received bs theirs rest)
        ≡ (answer c k d opened (c.hash bs) theirs, insert bytes_discrete dedup (c.hash bs) instant)
  unfolding verified
  verified_of dedup k d opened instant bs rest theirs p t s =
      let e = admit_of dedup opened instant (c.hash bs) theirs t s in
      rw (p, ap (λ z. z.0) e, ap (λ z. z.1) e, verified)

  confirmed_of :
      (k : Cookie) (d : Draws) (sent bs rest : List ℕ) (theirs : Handshake)
      → theirs.responding_to ≡ c.hash sent
      → check_padding c theirs rest ≡ none
      → confirmed c k d sent (received bs theirs rest)
        ≡ established [] (new c (c.diffie_hellman d.eph_sk theirs.eph_pk) false k.params)
  unfolding confirmed
  confirmed_of k d sent bs rest theirs e p = ground (arith, p)

  accept-dial_send :
      (dedup : Dedup (List ℕ)) (k : Cookie) (d e : Draws) (t opened instant : ℕ)
      → AreDrawn d
      → t < 2 ^ 64
      → abs_diff t opened ≤ wait_interval
      → contains bytes_discrete dedup (c.hash (hello c k d t)) ≡ false
      → (accept c dedup k e opened instant (dial_send c k d t)).0
        ≡ answer c k e opened (c.hash (hello c k d t)) (my_handshake c d t (c.hash []))
  unfolding accept dial_send my_handshake encrypt hello answer
  accept-dial_send dedup k d e t opened instant v t_fits near fresh =
      let mine : Handshake = my_handshake c d t (c.hash []) in
      ap (λ z. (verified c dedup k e opened instant z).0)
        (receive-encrypt k false mine d.nonce d.padding
          (Fits-my_handshake d t (c.hash []) v t_fits (c.length-hash [])) v.nonce_fits)
      ∙ ap (λ z. z.0)
          (verified_of dedup k e opened instant (hello c k d t) d.padding mine
            (check_padding-my_handshake d t (c.hash [])) near fresh)

  -- What the listener sends in its answer.
  pub reply_to : Cookie → Draws → ℕ → List ℕ → List ℕ
  reply_to k e opened hash = encrypt c (my_handshake c e opened hash) k true e.nonce ++ e.padding

  dial-reply_to :
      (k : Cookie) (d e : Draws) (t opened : ℕ)
      → AreDrawn e
      → opened < 2 ^ 64
      → dial c k d t (reply_to k e opened (c.hash (hello c k d t)))
        ≡ established [] (new c (c.diffie_hellman d.eph_sk (c.public_key e.eph_sk)) false k.params)
  unfolding dial reply_to my_handshake
  dial-reply_to k d e t opened w opened_fits =
      let hash : List ℕ = c.hash (hello c k d t) in
      let theirs : Handshake = my_handshake c e opened hash in
      ap (confirmed c k d (hello c k d t)) (
        receive-encrypt k true theirs e.nonce e.padding
          (Fits-my_handshake e opened hash w opened_fits (c.length-hash (hello c k d t)))
          w.nonce_fits)
      ∙ confirmed_of k d (hello c k d t) _ e.padding theirs
          (responding_to-my_handshake e opened hash) (check_padding-my_handshake e opened hash)

  Paired-new :
      (a b : List ℕ) (params : ObfsParams) (one other : Bool)
      → one ≡ not other
      → a ≡ b
      → Paired c (new c a one params) (new c b other params)
  unfolding new
  Paired-new a b params true false h e = record { key = ap (c.derive_key dn_label) e; nonce = refl }
  Paired-new a b params false true h e = record { key = ap (c.derive_key up_label) e; nonce = refl }
  Paired-new a b params true true h e = absurd (cc)
  Paired-new a b params false false h e = absurd (cc)

  -- With the same cookie, nonces of 12 bytes, paddings and times that fit 64 bits, a time of the
  -- dialer at most 30 seconds from that at which the listener opened the connection, and a
  -- handshake whose hash the table does not hold: the listener accepts what the dialer sends, the
  -- dialer accepts the listener's answer, and then each end's key and counter for sending are the
  -- other's for receiving. The instant at which the table is asked is any.
  pub dial-accept :
      (dedup : Dedup (List ℕ)) (k : Cookie) (d e : Draws) (t opened instant : ℕ)
      → AreDrawn d
      → AreDrawn e
      → t < 2 ^ 64
      → opened < 2 ^ 64
      → abs_diff t opened ≤ wait_interval
      → contains bytes_discrete dedup (c.hash (hello c k d t)) ≡ false
      → (reply : List ℕ) × (listening dialing : State) × ((accept c dedup k e opened instant
            (dial_send c k d t)).0
          ≡ established reply listening)
        × (dial c k d t reply ≡ established [] dialing)
        × Paired c dialing listening
        × Paired c listening dialing
  unfolding answer reply_to my_handshake
  dial-accept dedup k d e t opened instant v w t_fits opened_fits near fresh =
      let comm = c.diffie_hellman_comm d.eph_sk e.eph_sk in
      (
        reply_to k e opened (c.hash (hello c k d t)),
        new c (c.diffie_hellman e.eph_sk (c.public_key d.eph_sk)) true k.params,
        new c (c.diffie_hellman d.eph_sk (c.public_key e.eph_sk)) false k.params,
        accept-dial_send dedup k d e t opened instant v t_fits near fresh,
        dial-reply_to k d e t opened w opened_fits,
        Paired-new _ _ k.params false true refl comm,
        Paired-new _ _ k.params true false refl (sym comm),
      )
