-- ===== src/Exit/Auth.antt =====
-- binaries/geph5-exit/src/auth.rs: the check of a client's token. The two roots, of free and of plus
-- accounts, are constants of the code, and parameters here.
use geph.Base.{
  ◌^◌, ◌≤◌, ◌<◌, ◌≡◌, sym, ap, ◌∙◌, some, length, get_elem?, leb, arith, ℕ, ◌-◌, List, ltb,
  if◌then◌else◌,
}
use geph.Mizaru.Packages.{Scheme}
use geph.Mizaru.{
  BlindedSignature, generate, to_public_key, blind_sign, unblind, Verdict, valid, invalid, panicked,
  UnblindedSignature, blind_verify,
}
use geph.Mizaru.Tree.{some_inj}
use geph.Mizaru.Blind.{blind_verify-unblind}

pub data AccountLevel : Type 0 where
  free plus : AccountLevel

pub data Admission : Type 0 where
  admitted wrong_epoch bad_token crashed : Admission

unfoldable pub epoch_diff : ℕ → ℕ → ℕ
epoch_diff a b = if ltb a b then b - a else a - b

unfoldable pub of_verdict : Verdict → Admission
of_verdict valid = admitted
of_verdict invalid = bad_token
of_verdict panicked = crashed

module _ (m : Scheme) (root_of : AccountLevel → m.Hash) where
  unfoldable pub verify_user : ℕ → AccountLevel → List ℕ → UnblindedSignature m → Admission
  verify_user current_epoch level token sig =
      if ltb 2 (epoch_diff sig.epoch current_epoch)
      then wrong_epoch
      else of_verdict (blind_verify m (root_of level) token sig)

  pub verify_user_of :
      (current_epoch epoch : ℕ) (level : AccountLevel) (token : List ℕ) (sig : UnblindedSignature m)
      → sig.epoch ≡ epoch
      → blind_verify m (root_of level) token sig ≡ valid
      → verify_user current_epoch level token sig
        ≡ (if leb (epoch_diff epoch current_epoch) 2 then admitted else wrong_epoch)
  unfolding verify_user of_verdict
  verify_user_of current_epoch epoch level token sig e v =
      rw (v, verify_user, of_verdict)
        (turned (epoch_diff sig.epoch current_epoch)
          ∙ ap (λ z. if leb (epoch_diff z current_epoch) 2 then admitted else wrong_epoch) e)
    where
      turned :
          (n : ℕ)
          → (if ltb 2 n then wrong_epoch else admitted)
            ≡ (if leb n 2 then admitted else wrong_epoch)
      turned n = ground arith

  -- A token that was blinded, signed for its epoch below 2^d by the holder of a tree over 2^d keys
  -- (d at most 16) whose root is that of the account level, and unblinded, lets its client in if
  -- the current epoch is at most 2 away from its own, and is refused for its epoch otherwise.
  pub verify_user-unblind :
      (d epoch current_epoch draw : ℕ) (level : AccountLevel) (ks : List m.RsaKey) (k : m.RsaKey)
      (token : List ℕ)
      → length ks ≡ 2 ^ d
      → d ≤ 16
      → epoch < 2 ^ d
      → get_elem? ks epoch ≡ some k
      → to_public_key m (generate m ks) ≡ some (root_of level)
      → let blinded : List ℕ × m.Secret = m.blind (m.to_public_key k) token draw in
        (sig : BlindedSignature m) × (plain : UnblindedSignature m) × (blind_sign m
            (generate m ks)
            epoch
            blinded.0
          ≡ some sig)
        × (unblind m sig blinded.1 token ≡ some plain)
        × (verify_user current_epoch level token plain
            ≡ (if leb (epoch_diff epoch current_epoch) 2 then admitted else wrong_epoch))
  verify_user-unblind d epoch current_epoch draw level ks k token e l h g r =
      let (key, sig, plain, top, signed, unblinded, ok, same) =
        blind_verify-unblind m d epoch draw ks k token e l h g in
      let root_is : key ≡ root_of level = some_inj (sym top ∙ r) in
      (
        sig,
        plain,
        signed,
        unblinded,
        verify_user_of current_epoch epoch level token plain same
            (ap (λ z. blind_verify m z token plain) (sym root_is) ∙ ok),
      )
