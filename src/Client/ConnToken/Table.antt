-- ===== src/Client/ConnToken/Table.antt =====
-- The client's table of tokens over a whole refresh.
use geph.Base.{
  ℕ, ◌+◌, ◌≡◌, refl, ap, ◌∙◌, true, false, not, ◌&&◌, List, [], ◌∷◌, Option, none, some, ◌==◌,
  ==_refl, ==→eq, ltb, if◌then◌else◌, Bool-cases, Option-cases, inl, inr, arith,
}
use geph.Mizaru.Packages.{Scheme}
use geph.Exit.Auth.{AccountLevel}
use geph.Broker.Accounts.{UserInfo, find_id}
use geph.Client.ConnToken.{
  BrokerCalls, ConnToken, obtained, refresh_epoch, TokenDb, db_remove, plus_expiry, is_plus_token,
  clean_up, keep, ensure_epoch, refresh_conn_token,
}

module _ (m : Scheme) where
  find_id-head :
      (n epoch : ℕ) (t : ConnToken m) (db : TokenDb m)
      → find_id n ((epoch, t) ∷ db) ≡ (if n == epoch then some t else find_id n db)
  unfolding find_id
  find_id-head n epoch t db = ground arith

  find_id-db_remove :
      (n epoch : ℕ) (db : TokenDb m)
      → find_id n (db_remove m epoch db) ≡ (if n == epoch then none else find_id n db)
  unfolding find_id db_remove
  find_id-db_remove n epoch [] = ground arith
  find_id-db_remove n epoch ((e, t) ∷ db) =
      let step = find_id-db_remove n epoch db in
      elim (Bool-cases (e == epoch)) [
        | inl p ↦ rw p (step ∙ ground arith)
        | inr p ↦ rw p (
            find_id-head n e t (db_remove m epoch db)
            ∙ ap (λ z. if n == e then some t else z) step
            ∙ ground arith)
      ]

  -- The token of an epoch that a user keeps, who may have gained plus.
  unfoldable pub left : UserInfo → ℕ → TokenDb m → ℕ → Option (ConnToken m)
  left info epoch db n =
      if ltb 0 (plus_expiry m info) && not (is_plus_token m (find_id epoch db))
      then none
      else find_id n db

  unfoldable pub or_new : ConnToken m → Option (ConnToken m) → ConnToken m
  or_new t none = t
  or_new t (some u) = u

  ensure_epoch-obtained :
      (broker : BrokerCalls m) (keys : Option (AccountLevel → m.Hash)) (epoch : ℕ) (token : List ℕ)
      (draw : AccountLevel → ℕ) (db : TokenDb m) (t : ConnToken m)
      → refresh_epoch m broker keys epoch token draw ≡ obtained t
      → (next : TokenDb m) × (ensure_epoch m broker keys epoch token draw db ≡ (next, true))
        × ((n : ℕ)
            → find_id n next
              ≡ (if n == epoch then some (or_new t (find_id epoch db)) else find_id n db))
  unfolding ensure_epoch or_new keep
  ensure_epoch-obtained broker keys epoch token draw db t e =
      elim (Option-cases (find_id epoch db)) [
        | inl f ↦ (
          (epoch, t) ∷ db,
          rw (f, ensure_epoch, e, keep) refl,
          λ n. rw f (find_id-head n epoch t db),
        )
        | inr (u, f) ↦ (
          db,
          rw (f, ensure_epoch) refl,
          λ n. rw f (elim (Bool-cases (n == epoch)) [
            | inl g ↦ rw g (ap (λ z. find_id z db) (==→eq n epoch g) ∙ f)
            | inr g ↦ rw g refl
          ]),
        )
      ]

  find_id-clean_up :
      (info : UserInfo) (epoch : ℕ) (db : TokenDb m)
      → (find_id epoch (clean_up m info epoch db) ≡ left info epoch db epoch)
        × (find_id (epoch + 1) (clean_up m info epoch db) ≡ left info epoch db (epoch + 1))
  unfolding clean_up left
  find_id-clean_up info epoch db =
      elim (Bool-cases (ltb 0 (plus_expiry m info) && not (is_plus_token m (find_id epoch db)))) [
        | inl g ↦ rw g (
          find_id-db_remove epoch (epoch + 1) (db_remove m epoch db)
              ∙ ap (λ z. if epoch == (epoch + 1) then none else z)
                  (find_id-db_remove epoch epoch db)
              ∙ ground arith,
          find_id-db_remove (epoch + 1) (epoch + 1) (db_remove m epoch db) ∙ ground arith,
        )
        | inr g ↦ rw g (refl, refl)
      ]

  -- When the user's data comes and requests for an epoch and for the next one obtain a token each, a
  -- refresh succeeds, and then the table has a token for both epochs: for each, the one that was there,
  -- if there was one, unless the user has plus and had no plus token for the first epoch, in which case
  -- both are the new ones.
  pub refresh_conn_token-obtained :
      (broker : BrokerCalls m) (keys : Option (AccountLevel → m.Hash)) (info : UserInfo) (epoch : ℕ)
      (tokens : ℕ → List ℕ) (draw : ℕ → AccountLevel → ℕ) (db : TokenDb m) (t u : ConnToken m)
      → refresh_epoch m broker keys epoch (tokens epoch) (draw epoch) ≡ obtained t
      → refresh_epoch m broker keys (epoch + 1) (tokens (epoch + 1)) (draw (epoch + 1)) ≡ obtained u
      → (after : TokenDb m) × (refresh_conn_token m broker keys (some info) epoch tokens draw db
          ≡ (after, true))
        × (find_id epoch after ≡ some (or_new t (left info epoch db epoch)))
        × (find_id (epoch + 1) after ≡ some (or_new u (left info epoch db (epoch + 1))))
  unfolding refresh_conn_token
  refresh_conn_token-obtained broker keys info epoch tokens draw db t u e f =
      let before : (epoch == (epoch + 1)) ≡ false = ground arith in
      let behind : ((epoch + 1) == epoch) ≡ false = ground arith in
      let (now, later) = find_id-clean_up info epoch db in
      let (first, done, found) =
        ensure_epoch-obtained broker keys epoch (tokens epoch) (draw epoch)
          (clean_up m info epoch db) t e in
      let (after, done_next, found_next) =
        ensure_epoch-obtained broker keys (epoch + 1) (tokens (epoch + 1)) (draw (epoch + 1)) first
          u f in
      (
        after,
        rw (refresh_conn_token, done, done_next) refl,
        found_next epoch
            ∙ rw before (found epoch ∙ rw (==_refl epoch) (ap (λ z. some (or_new t z)) now)),
        found_next (epoch + 1)
            ∙ rw (==_refl (epoch + 1))
                (ap (λ z. some (or_new u z)) (found (epoch + 1) ∙ rw behind later)),
      )
