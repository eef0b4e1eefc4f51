-- ===== src/Session/CryptPipe.antt =====
-- `ClientExitCryptPipe` of libraries/geph5-misc-rpc/src/exit.rs: the two tasks, over the pieces that the
-- writer's reads give and over the bytes that the reader's pipe gives.
use geph.Base.{
  ℕ, zero, suc, ◌+◌, ◌-◌, ◌≤◌, ◌≡◌, refl, sym, ap, ap₂, ◌∙◌, List, [], ◌∷◌, ◌++◌, append_assoc,
  Option, none, some, length, length-append, take, drop, take-append, drop-append, replicate, All,
  leb, if◌then◌else◌, arith, le→leb,
}
use geph.Base.Bytes.{to_le_bytes}
use geph.Sosistab.Crypto.{Crypto}
use geph.Session.Prepend.{write_prepend_length, read_prepend_length, read-write_prepend_length}

unfoldable pub nonce_bytes : ℕ → List ℕ
nonce_bytes n = to_le_bytes 8 n ++ replicate 4 0

-- Whether a message is as long as a tag; `Aead::decrypt` refuses shorter ones.
module _ (p : Crypto) (key : List ℕ) where
  unfoldable pub encrypt : ℕ → List ℕ → List ℕ
  encrypt nonce plain =
      (p.seal key (nonce_bytes nonce) plain).0 ++ (p.seal key (nonce_bytes nonce) plain).1

  unfoldable pub decrypt : ℕ → List ℕ → Option (List ℕ)
  decrypt nonce msg =
      if leb 16 (length msg)
      then p.unseal key (nonce_bytes nonce) (take (length msg - 16) msg)
          (drop (length msg - 16) msg)
      else none

  -- The writing task, from a nonce on.
  unfoldable pub write_task : ℕ → List (List ℕ) → List ℕ
  write_task write_nonce [] = []
  write_task write_nonce (buf ∷ bufs) =
      write_prepend_length (encrypt write_nonce buf) ++ write_task (suc write_nonce) bufs

  -- The reading task: what it has passed on when it stops at an error, or after so many messages.
  unfoldable pub read_task : ℕ → ℕ → List ℕ → List ℕ
  read_task zero read_nonce input = []
  read_task (suc messages) read_nonce input = elim (read_prepend_length input) [
    | none ↦ []
    | some (msg, rest) ↦ elim (decrypt read_nonce msg) [
      | none ↦ []
      | some plaintext ↦ plaintext ++ read_task messages (suc read_nonce) rest
    ]
  ]

  unfoldable pub flatten : List (List ℕ) → List ℕ
  flatten [] = []
  flatten (buf ∷ bufs) = buf ++ flatten bufs

  length-encrypt : (n : ℕ) (buf : List ℕ) → length (encrypt n buf) ≡ length buf + 16
  unfolding encrypt
  length-encrypt n buf = omega (
    arith,
    length-append (p.seal key (nonce_bytes n) buf).0 (p.seal key (nonce_bytes n) buf).1,
    p.length-cipher key (nonce_bytes n) buf,
    p.length-tag key (nonce_bytes n) buf,
  )

  decrypt_of :
      (n k : ℕ) (msg c t : List ℕ)
      → msg ≡ c ++ t
      → 16 ≤ length msg
      → length msg - 16 ≡ k
      → k ≡ length c
      → decrypt n msg ≡ p.unseal key (nonce_bytes n) c t
  unfolding decrypt
  decrypt_of n k msg c t e long f g =
      rw (le→leb 16 (length msg) long, f, e, take-append k c t g, drop-append k c t g) refl

  decrypt-encrypt : (n : ℕ) (buf : List ℕ) → decrypt n (encrypt n buf) ≡ some buf
  unfolding encrypt
  decrypt-encrypt n buf =
      let c : List ℕ = (p.seal key (nonce_bytes n) buf).0 in
      let t : List ℕ = (p.seal key (nonce_bytes n) buf).1 in
      decrypt_of n (length c) (encrypt n buf) c t refl (omega (arith, length-encrypt n buf))
        (omega (arith, length-encrypt n buf, p.length-cipher key (nonce_bytes n) buf)) refl
      ∙ p.unseal-seal key (nonce_bytes n) buf

  read_task_of :
      (messages n : ℕ) (input msg rest plaintext : List ℕ)
      → read_prepend_length input ≡ some (msg, rest)
      → decrypt n msg ≡ some plaintext
      → read_task (suc messages) n input ≡ plaintext ++ read_task messages (suc n) rest
  unfolding read_task
  read_task_of messages n input msg rest plaintext e f = rw (e, f, read_task) refl

  -- Pieces of up to 8192 bytes, as the writer reads them, come out of the reader as they went in, in
  -- order and none of them lost, if both are at the same nonce; the reader goes on behind them with
  -- whatever the pipe gives next.
  pub read_task-write_task :
      (messages n : ℕ) (bufs : List (List ℕ)) (more : List ℕ)
      → All (λ buf. length buf ≤ 8192) bufs
      → read_task (length bufs + messages) n (write_task n bufs ++ more)
        ≡ flatten bufs ++ read_task messages (length bufs + n) more
  unfolding flatten write_task
  read_task-write_task messages n [] more h =
      ap₂ (λ k j. read_task k j more) (omega arith) (omega arith)
  read_task-write_task messages n (buf ∷ bufs) more h =
      let sealed : List ℕ = encrypt n buf in
      let rest : List ℕ = write_task (suc n) bufs in
      ap₂ (λ k input. read_task k n input) (omega arith)
        (append_assoc (write_prepend_length sealed) rest more)
      ∙ read_task_of (length bufs + messages) n _ sealed (rest ++ more) buf
          (read-write_prepend_length sealed (rest ++ more)
            (omega (arith, length-encrypt n buf, h.0)))
          (decrypt-encrypt n buf)
      ∙ ap (◌++◌ buf) (
          read_task-write_task messages (suc n) bufs more h.1
          ∙ ap (λ j. flatten bufs ++ read_task messages j more) (omega arith))
      ∙ sym (append_assoc buf (flatten bufs) _)
