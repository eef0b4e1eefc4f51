-- ===== src/Broker/Accounts/Register.antt =====
-- What becomes of a registration.
use Prim.Native.String.{String}
use text.Mathlib.Text.{◌==◌}
use text.Mathlib.TextPositions.{eq_refl}
use geph.Base.{
  ℕ, ◌≡◌, refl, sym, ap, ◌∙◌, subst, Bool, List, [], ◌∷◌, ◌++◌, Option, none, some, if◌then◌else◌,
  leb, ◌&&◌, arith, Bool-cases, inl, inr,
}
use geph.Broker.Accounts.{
  Db, find_text, secret_of, add_secret, secret_or_new, register_for, register_secret, spend_puzzle,
  verify_puzzle_solution,
}
use geph.Mizaru.Tree.{some_inj}

find_text-appended :
    {V : Type 0} (k : String) (v : V) (rows : List (String × V))
    → find_text k rows ≡ none
    → find_text k (rows ++ ((k, v) ∷ [])) ≡ some v
unfolding find_text
find_text-appended k v [] h = rw (eq_refl k) refl
find_text-appended k v ((j, w) ∷ rows) h = elim (Bool-cases (j == k)) [
  | inl e ↦ absurd (ground arith)
  | inr e ↦ rw e (find_text-appended k v rows (ground arith))
]

find_text-append :
    {V : Type 0} (k : String) (v : V) (rows more : List (String × V))
    → find_text k rows ≡ some v
    → find_text k (rows ++ more) ≡ some v
unfolding find_text
find_text-append k v [] more h = absurd (cc)
find_text-append k v ((j, w) ∷ rows) more h = elim (Bool-cases (j == k)) [
  | inl e ↦ ground arith
  | inr e ↦ rw e (find_text-append k v rows more (ground arith))
]

secret_of-appended :
    (k : ℕ) (s : String) (rows : List (String × ℕ))
    → secret_of k rows ≡ none
    → secret_of k (rows ++ ((s, k) ∷ [])) ≡ some s
unfolding secret_of
secret_of-appended k s [] h = ground arith
secret_of-appended k s ((t, j) ∷ rows) h = elim (Bool-cases (leb j k && leb k j)) [
  | inl e ↦ absurd (ground arith)
  | inr e ↦ rw e (secret_of-appended k s rows (ground arith))
]

module _ (solves : String → String → Bool) where
  spend_puzzle_found :
      (db : Db) (puzzle : String) (o : Option ℕ) (v : ℕ)
      → o ≡ some v
      → spend_puzzle solves db puzzle o ≡ none
  unfolding spend_puzzle
  spend_puzzle_found db puzzle none v e = absurd (cc)
  spend_puzzle_found db puzzle (some w) v e = refl

  find_text-spend_puzzle :
      (db db' : Db) (puzzle : String) (found : Option ℕ)
      → find_text puzzle db.used_puzzles ≡ found
      → spend_puzzle solves db puzzle found ≡ some db'
      → find_text puzzle db'.used_puzzles ≡ some 0
  unfolding spend_puzzle
  find_text-spend_puzzle db db' puzzle none g h =
      subst (λ (d : Db). find_text puzzle d.used_puzzles ≡ some 0) (some_inj h)
        (find_text-appended puzzle 0 db.used_puzzles g)
  find_text-spend_puzzle db db' puzzle (some v) g h = absurd (cc)

  verify_puzzle_solution-some :
      (db db' : Db) (puzzle solution : String)
      → verify_puzzle_solution solves db puzzle solution ≡ some db'
      → spend_puzzle solves db puzzle (find_text puzzle db.used_puzzles) ≡ some db'
  unfolding verify_puzzle_solution
  verify_puzzle_solution-some db db' puzzle solution e =
      elim (Bool-cases (solves puzzle solution && db.reachable)) [
        | inl t ↦
            sym (
              ap
                (λ b.
                  if b
                  then spend_puzzle solves db puzzle (find_text puzzle db.used_puzzles)
                  else none)
                t)
            ∙ e
        | inr t ↦ absurd (ground arith)
      ]

  verify_puzzle_solution-none :
      (db : Db) (puzzle solution : String)
      → spend_puzzle solves db puzzle (find_text puzzle db.used_puzzles) ≡ none
      → verify_puzzle_solution solves db puzzle solution ≡ none
  unfolding verify_puzzle_solution
  verify_puzzle_solution-none db puzzle solution e =
      elim (Bool-cases (solves puzzle solution && db.reachable)) [
        | inl t ↦
            ap
              (λ b.
                if b
                then spend_puzzle solves db puzzle (find_text puzzle db.used_puzzles)
                else none)
              t
            ∙ e
        | inr t ↦
            ap
              (λ b.
                if b
                then spend_puzzle solves db puzzle (find_text puzzle db.used_puzzles)
                else none)
              t
      ]

  -- A puzzle that has been taken once is never taken again, with whatever solution, as long as its row
  -- is kept.
  pub verify_puzzle_solution_once :
      (db db' later : Db) (puzzle solution other : String) (more : List (String × ℕ))
      → verify_puzzle_solution solves db puzzle solution ≡ some db'
      → later.used_puzzles ≡ db'.used_puzzles ++ more
      → verify_puzzle_solution solves later puzzle other ≡ none
  verify_puzzle_solution_once db db' later puzzle solution other more e f =
      let used : find_text puzzle db'.used_puzzles ≡ some 0 =
        find_text-spend_puzzle db db' puzzle _ refl
          (verify_puzzle_solution-some db db' puzzle solution e) in
      let found : find_text puzzle later.used_puzzles ≡ some 0 =
        ap (find_text puzzle) f ∙ find_text-append puzzle 0 db'.used_puzzles more used in
      verify_puzzle_solution-none later puzzle other
        (spend_puzzle_found later puzzle (find_text puzzle later.used_puzzles) 0 found)

-- The secret that a user has is the one that is given, and the tables stay as they are.
register_for_old :
    (db : Db) (user_id : ℕ) (drawn s : String) (code : Option String)
    → secret_of user_id db.auth_secret ≡ some s
    → register_for db user_id drawn code ≡ some (s, db)
unfolding register_for secret_or_new
register_for_old db user_id drawn s code e = ap (secret_or_new db user_id drawn code) e

secret_of-register_for :
    (db db' : Db) (user_id : ℕ) (drawn s : String) (code : Option String) (old : Option String)
    → secret_of user_id db.auth_secret ≡ old
    → secret_or_new db user_id drawn code old ≡ some (s, db')
    → (secret_of user_id db'.auth_secret ≡ some s) × (db'.reachable ≡ db.reachable)
unfolding secret_or_new add_secret
secret_of-register_for db db' user_id drawn s code (some t) g h =
    let p : ◌≡◌ {A = String × Db} (t, db) (s, db') = some_inj h in
    (
      ap (λ (x : String × Db). secret_of user_id x.1.auth_secret) (sym p)
          ∙ g
          ∙ ap (λ (x : String × Db). some x.0) p,
      ap (λ (x : String × Db). x.1.reachable) (sym p),
    )
secret_of-register_for db db' user_id drawn s none none g h = absurd (cc)
secret_of-register_for db db' user_id drawn s (some code) none g h =
    let p = some_inj h in
    (
      ap (λ (x : String × Db). secret_of user_id x.1.auth_secret) (sym p)
          ∙ secret_of-appended user_id drawn db.auth_secret g
          ∙ ap (λ (x : String × Db). some x.0) p,
      ap (λ (x : String × Db). x.1.reachable) (sym p),
    )

-- A user who has been given a secret is given the same one again, whatever is drawn then, and neither
-- the tables nor the vouchers change.
pub register_secret_again :
    (db db' : Db) (user_id : ℕ) (drawn s other : String) (code other_code : Option String)
    → register_secret db (some user_id) drawn code ≡ some (s, db')
    → register_secret db' (some user_id) other other_code ≡ some (s, db')
unfolding register_secret register_for
register_secret_again db db' user_id drawn s other code other_code e =
    elim (Bool-cases db.reachable) [
      | inr r ↦ absurd (ground arith)
      | inl r ↦
          let k : register_for db user_id drawn code ≡ some (s, db') =
            sym (ap (λ b. if b then register_for db user_id drawn code else none) r) ∙ e in
          let after = secret_of-register_for db db' user_id drawn s code _ refl k in
          ap (λ b. if b then register_for db' user_id other other_code else none) (after.1 ∙ r)
          ∙ register_for_old db' user_id other s other_code after.0
    ]
