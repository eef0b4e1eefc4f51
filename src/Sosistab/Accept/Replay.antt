-- ===== src/Sosistab/Accept/Replay.antt =====
-- A handshake that a listener has accepted is not accepted again while its table remembers it.
use geph.Base.{
  ℕ, ◌+◌, ◌≤◌, ◌<◌, ◌≡◌, refl, ap, ◌∙◌, Bool, true, false, List, [], ◌∷◌, none, some, length, take,
  ltb, All, ◌⊎◌, inl, inr, leb, Option-cases, subst, Bool-cases,
}
use geph.Base.Bytes.{read_exact}
use geph.Sosistab.Crypto.{Crypto}
use geph.Sosistab.Dedup.{Dedup, insert, contains}
use geph.Sosistab.Dedup.Remembers.{inserts, contains-inserts}
use geph.Sosistab.Handshake.{Cookie, Handshake, decrypt}
use geph.Sosistab.Accept.{
  Draws, Received, rejected, received, Refusal, bad_timestamp, already_seen, wait_interval,
  abs_diff, Outcome, refused, established, bytes_discrete, receive, check_padding, admit, answer,
  verified, accept,
}

-- A connection to a listener: its draws, the times at which it was opened and at which its
-- handshake was looked up, and the bytes that came in.
pub record Connection : Type 0 where
  pub draws : Draws
  pub opened : ℕ
  pub instant : ℕ
  pub input : List ℕ

abbrev pub is_established : Outcome → Bool
is_established (refused why) = false
is_established (established out s) = true

-- The handshake as it came in, if there is one, is this one.
abbrev HandshakeIs : List ℕ → Received → Type 0
HandshakeIs bs (rejected why) = Unit
HandshakeIs bs (received bs' theirs rest) = bs' ≡ bs

module _ (c : Crypto) (k : Cookie) where
  abbrev pub accept_one : Dedup (List ℕ) → Connection → Outcome × Dedup (List ℕ)
  accept_one dedup x = accept c dedup k x.draws x.opened x.instant x.input

  -- The connections of a listener, in the order in which they come to its table.
  pub serve : Dedup (List ℕ) → List Connection → Dedup (List ℕ)
  serve dedup [] = dedup
  serve dedup (x ∷ xs) = serve (accept_one dedup x).1 xs

  -- A task puts a handshake into the table that was not there, or it comes to no session and
  -- leaves the table as it is.
  abbrev Admits : Dedup (List ℕ) → List ℕ → ℕ → Outcome × Dedup (List ℕ) → Type 0
  Admits dedup hash instant o =
      ((contains bytes_discrete dedup hash ≡ false)
        × (o.1 ≡ insert bytes_discrete dedup hash instant))
      ⊎ ((is_established o.0 ≡ false) × (o.1 ≡ dedup))

  admit_cases :
      (dedup : Dedup (List ℕ)) (opened instant : ℕ) (hash : List ℕ) (theirs : Handshake)
      → ((contains bytes_discrete dedup hash ≡ false)
          × (admit c dedup opened instant hash theirs
              ≡ (none, insert bytes_discrete dedup hash instant)))
        ⊎ ((why : Refusal) × (admit c dedup opened instant hash theirs ≡ (some why, dedup)))
  unfolding admit
  admit_cases dedup opened instant hash theirs =
      elim (Bool-cases (ltb wait_interval (abs_diff theirs.timestamp opened))) [
        | inl e ↦ inr (bad_timestamp, rw e)
        | inr e ↦ elim (Bool-cases (contains bytes_discrete dedup hash)) [
          | inl f ↦ inr (already_seen, rw (e, f))
          | inr f ↦ inl (f, rw (e, f))
        ]
      ]

  checked-Admits :
      (dedup : Dedup (List ℕ)) (d : Draws) (opened instant : ℕ) (bs rest : List ℕ)
      (theirs : Handshake)
      → Admits dedup
          (c.hash bs)
          instant
          (verified c dedup k d opened instant (received bs theirs rest))
  unfolding verified answer
  checked-Admits dedup d opened instant bs rest theirs =
      elim (Option-cases (check_padding c theirs rest)) [
        | inr (why, e) ↦ rw (e, verified) (inr (refl, refl))
        | inl e ↦ elim (admit_cases dedup opened instant (c.hash bs) theirs) [
          | inl (n, f) ↦ rw (e, ap (λ z. z.0) f, ap (λ z. z.1) f, verified) (inl (n, refl))
          | inr (why, f) ↦ rw (e, ap (λ z. z.0) f, ap (λ z. z.1) f, verified) (inr (refl, refl))
        ]
      ]

  verified-Admits :
      (dedup : Dedup (List ℕ)) (d : Draws) (opened instant : ℕ) (bs : List ℕ) (r : Received)
      → HandshakeIs bs r
      → Admits dedup (c.hash bs) instant (verified c dedup k d opened instant r)
  unfolding verified
  verified-Admits dedup d opened instant bs (rejected why) h = inr (refl, refl)
  verified-Admits dedup d opened instant bs (received bs' theirs rest) h =
      subst
        (λ z.
          Admits dedup (c.hash z) instant
            (verified c dedup k d opened instant (received bs' theirs rest)))
        h (checked-Admits dedup d opened instant bs' rest theirs)

  receive_is :
      (is_server : Bool) (input : List ℕ)
      → HandshakeIs (take 140 input) (receive c k is_server input)
  unfolding receive read_exact
  receive_is is_server input = elim (Bool-cases (leb 140 (length input))) [
    | inr e ↦ rw (e, receive) tt
    | inl e ↦ elim (Option-cases (decrypt c (take 140 input) k is_server)) [
      | inl f ↦ rw (e, f, receive) tt
      | inr (theirs, f) ↦ rw (e, f, receive) refl
    ]
  ]

  -- The hash under which the table keeps the handshake of a connection.
  abbrev pub key_of : Connection → List ℕ
  key_of x = c.hash (take 140 x.input)

  accept-Admits :
      (dedup : Dedup (List ℕ)) (x : Connection)
      → Admits dedup (key_of x) x.instant (accept_one dedup x)
  unfolding accept
  accept-Admits dedup x =
      verified-Admits dedup x.draws x.opened x.instant (take 140 x.input)
        (receive c k false x.input) (receive_is false x.input)

  -- The connections of a stretch of time are, for the table, some insertions within it.
  serve-inserts :
      (lo hi : ℕ) (dedup : Dedup (List ℕ)) (xs : List Connection)
      → All (λ (x : Connection). (lo ≤ x.instant) × (x.instant < hi)) xs
      → (es : List (List ℕ × ℕ)) × (serve dedup xs ≡ inserts bytes_discrete dedup es)
        × All (λ (e : List ℕ × ℕ). (lo ≤ e.1) × (e.1 < hi)) es
  unfolding serve inserts
  serve-inserts lo hi dedup [] a = ([], refl, tt)
  serve-inserts lo hi dedup (x ∷ xs) a =
      let (es, e, b) = serve-inserts lo hi (accept_one dedup x).1 xs a.1 in
      elim (accept-Admits dedup x) [
        | inl (n, f) ↦
            ((key_of x, x.instant) ∷ es, e ∙ ap (λ z. inserts bytes_discrete z es) f, (a.0, b))
        | inr (n, f) ↦ (es, e ∙ ap (λ z. inserts bytes_discrete z es) f, b)
      ]

  -- Once a connection has come to a session, another one that begins with the same 140 bytes comes
  -- to none and leaves the table as it is, whatever connections come in between, if the table's
  -- expiry is not 0 and all those in between come to the table before it has passed since.
  pub accept-replayed :
      (dedup : Dedup (List ℕ)) (x y : Connection) (between : List Connection)
      → 0 < dedup.expiry
      → is_established (accept_one dedup x).0 ≡ true
      → All
          (λ (z : Connection). (x.instant ≤ z.instant) × (z.instant < x.instant + dedup.expiry))
          between
      → take 140 y.input ≡ take 140 x.input
      → let seen : Dedup (List ℕ) = serve (accept_one dedup x).1 between in
        (is_established (accept_one seen y).0 ≡ false) × ((accept_one seen y).1 ≡ seen)
  accept-replayed dedup x y between p v a same = elim (accept-Admits dedup x) [
    | inr (n, f) ↦ absurd (cc)
    | inl (n, f) ↦
        let (es, e, b) =
          serve-inserts x.instant (x.instant + dedup.expiry) (accept_one dedup x).1 between a in
        let there = contains-inserts bytes_discrete dedup (key_of x) x.instant es p b in
        elim (accept-Admits (serve (accept_one dedup x).1 between) y) [
          | inr (m, g) ↦ (m, g)
          | inl (m, g) ↦ absurd (cc)
        ]
  ]
