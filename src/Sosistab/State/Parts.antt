-- ===== src/Sosistab/State/Parts.antt =====
-- The parts of a hunk, and how `decrypt` takes them apart.
use geph.Base.{
  ℕ, ◌+◌, ◌^◌, ◌≤◌, ◌<◌, ◌≡◌, refl, sym, ap, ◌∙◌, Bool, true, false, List, [], ◌∷◌, ◌++◌, some,
  length, length-append, take-append, drop-append, arith, ltb, lt→ltb, if◌then◌else◌,
}
use geph.Base.Bytes.{from_le_bytes, from-to_le_bytes}
use geph.Sosistab.Crypto.{Crypto}
use geph.Sosistab.State.{
  State, failed, decrypted, would_block, nonce_bytes, length_word, length_bytes, word_abs,
  word_positive, hunk, decrypt, decrypt_body,
}

-- The absolute value and the sign of a length survive the 32-bit word.
pub word_abs-length_word : (n : ℕ) (b : Bool) → n < 2 ^ 31 → word_abs (length_word n b) ≡ n
unfolding word_abs length_word
word_abs-length_word n true h = ground arith
word_abs-length_word n false h = ground arith

pub word_positive_padding : (n : ℕ) → n < 2 ^ 31 → word_positive (length_word n true) ≡ false
unfolding word_positive length_word
word_positive_padding n h = ground arith

pub word_positive_data : (n : ℕ) → n < 2 ^ 31 → word_positive (length_word n false) ≡ ltb 0 n
unfolding word_positive length_word
word_positive_data n h = ground arith

pub length_word-lt : (n : ℕ) (b : Bool) → length_word n b < 256 ^ 4
unfolding length_word
length_word-lt n true = omega arith
length_word-lt n false = omega arith

length-length_bytes : (n : ℕ) (b : Bool) → length (length_bytes n b) ≡ 4
unfolding length_bytes
length-length_bytes n b = refl

from-length_bytes : (n : ℕ) (b : Bool) → from_le_bytes (length_bytes n b) ≡ length_word n b
unfolding length_bytes
from-length_bytes n b = from-to_le_bytes 4 (length_word n b) (length_word-lt n b)

module _ (c : Crypto) where
  -- The four parts of a hunk.
  abbrev pub sealed_length : State → List ℕ → Bool → List ℕ × List ℕ
  sealed_length s bts b =
      c.seal s.send_aead (nonce_bytes s.send_nonce) (length_bytes (length bts) b)

  abbrev pub sealed_body : State → List ℕ → List ℕ × List ℕ
  sealed_body s bts = c.seal s.send_aead (nonce_bytes (s.send_nonce + 1)) bts

  pub length-parts :
      (s : State) (bts : List ℕ) (b : Bool)
      → (length (sealed_length s bts b).0 ≡ 4)
        × (length (sealed_length s bts b).1 ≡ 16)
        × (length (sealed_body s bts).0 ≡ length bts)
        × (length (sealed_body s bts).1 ≡ 16)
  length-parts s bts b = (
    c.length-cipher _ _ (length_bytes (length bts) b) ∙ length-length_bytes (length bts) b,
    c.length-tag _ _ _,
    c.length-cipher _ _ bts,
    c.length-tag _ _ _,
  )

  pub hunk-parts :
      (s : State) (bts : List ℕ) (b : Bool)
      → hunk c s bts b
        ≡ (sealed_length s bts b).0
          ++ ((sealed_length s bts b).1 ++ ((sealed_body s bts).0 ++ (sealed_body s bts).1))
  unfolding hunk
  hunk-parts s bts b = refl

  pub length-hunk :
      (s : State) (bts : List ℕ) (b : Bool) → length (hunk c s bts b) ≡ 36 + length bts
  length-hunk s bts b =
      let p = length-parts s bts b in
      omega (
        arith,
        ap length (hunk-parts s bts b),
        length-append (sealed_length s bts b).0
            ((sealed_length s bts b).1 ++ ((sealed_body s bts).0 ++ (sealed_body s bts).1)),
        length-append (sealed_length s bts b).1 ((sealed_body s bts).0 ++ (sealed_body s bts).1),
        length-append (sealed_body s bts).0 (sealed_body s bts).1,
      )

  decrypt_long :
      (r : State) (l t rest word : List ℕ)
      → length l ≡ 4
      → length t ≡ 16
      → 4 ≤ length rest
      → c.unseal r.recv_aead (nonce_bytes r.recv_nonce) l t ≡ some word
      → decrypt c r (l ++ (t ++ rest)) ≡ decrypt_body c r rest (from_le_bytes word)
  unfolding decrypt
  decrypt_long r l t rest word hl ht hr e = rw (
    take-append 4 l (t ++ rest) (sym hl),
    drop-append 4 l (t ++ rest) (sym hl),
    take-append 16 t rest (sym ht),
    long,
    e,
    drop-append 4 l (t ++ rest) (sym hl),
    drop-append 16 t rest (sym ht),
  )
    where
      long : ltb (length (l ++ (t ++ rest))) 24 ≡ false
      long = ground (arith, length-append l (t ++ rest), length-append t rest)

  -- The two ends share a key and agree on the count of hunks.
  pub record Paired (s r : State) : Type 0 where
    pub key : s.send_aead ≡ r.recv_aead
    pub nonce : s.send_nonce ≡ r.recv_nonce

  unfoldable pub next_receiver : State → State
  next_receiver r = record r { recv_nonce = r.recv_nonce + 2 }

  -- The length of a hunk opens at the paired receiver, whatever stands behind its tag.
  pub decrypt-Paired :
      (s r : State) (bts rest : List ℕ) (b : Bool)
      → Paired s r
      → 4 ≤ length rest
      → decrypt c r ((sealed_length s bts b).0 ++ ((sealed_length s bts b).1 ++ rest))
        ≡ decrypt_body c r rest (length_word (length bts) b)
  decrypt-Paired s r bts rest b v h =
      let p = length-parts s bts b in
      decrypt_long r _ _ rest (length_bytes (length bts) b) p.0 p.1 h opens
      ∙ ap (decrypt_body c r rest) (from-length_bytes (length bts) b)
    where
      opens :
          c.unseal r.recv_aead
            (nonce_bytes r.recv_nonce)
            (sealed_length s bts b).0
            (sealed_length s bts b).1
          ≡ some (length_bytes (length bts) b)
      opens = rw (← v.key, ← v.nonce) (c.unseal-seal _ _ _)

  abbrev pub payload : List ℕ → Bool → List ℕ
  payload bts true = []
  payload bts false = bts

  payload-positive :
      (bts : List ℕ) (b : Bool)
      → length bts < 2 ^ 31
      → (if word_positive (length_word (length bts) b) then bts else []) ≡ payload bts b
  payload-positive bts true h = rw (word_positive_padding (length bts) h)
  payload-positive [] false h = rw (word_positive_data 0 h)
  payload-positive (x ∷ xs) false h = rw (word_positive_data (length (x ∷ xs)) h) (ground arith)

  pub decrypt_body_whole :
      (s r : State) (bts rest : List ℕ) (b : Bool)
      → Paired s r
      → length bts < 2 ^ 31
      → decrypt_body c r
          ((sealed_body s bts).0 ++ ((sealed_body s bts).1 ++ rest))
          (length_word (length bts) b)
        ≡ decrypted (36 + length bts) (payload bts b) (next_receiver r)
  unfolding decrypt_body next_receiver
  decrypt_body_whole s r bts rest b v h =
      let p = length-parts s bts b in
      rw (
        word_abs-length_word (length bts) b h,
        take-append (length bts) (sealed_body s bts).0 ((sealed_body s bts).1 ++ rest) (sym p.2),
        drop-append (length bts) (sealed_body s bts).0 ((sealed_body s bts).1 ++ rest) (sym p.2),
        take-append 16 (sealed_body s bts).1 rest (sym p.3),
        fits,
        opens,
        payload-positive bts b h,
      )
    where
      fits :
          ltb (length ((sealed_body s bts).0 ++ ((sealed_body s bts).1 ++ rest))) (length bts + 16)
          ≡ false
      fits =
          let p = length-parts s bts b in
          ground (
            arith,
            p.2,
            p.3,
            length-append (sealed_body s bts).0 ((sealed_body s bts).1 ++ rest),
            length-append (sealed_body s bts).1 rest,
          )

      opens :
          c.unseal r.recv_aead
            (nonce_bytes (r.recv_nonce + 1))
            (sealed_body s bts).0
            (sealed_body s bts).1
          ≡ some bts
      opens = rw (← v.key, ← v.nonce) (c.unseal-seal _ _ _)

  pub decrypt_body_cut :
      (r : State) (rest : List ℕ) (n : ℕ) (b : Bool)
      → n < 2 ^ 31
      → length rest < n + 16
      → decrypt_body c r rest (length_word n b) ≡ failed would_block
  unfolding decrypt_body
  decrypt_body_cut r rest n b h l = rw (word_abs-length_word n b h, lt→ltb (length rest) (n + 16) l)
