-- ===== src/Sosistab/Handshake/Wire.antt =====
-- A handshake survives its bytes and its sealing.
use geph.Base.{
  ℕ, ◌≡◌, sym, ap, ◌∙◌, Bool, List, ◌++◌, some, length, take, drop, take-append, drop-append,
  length-append, take-length, drop_past, arith,
}
use geph.Base.Bytes.{to_be_bytes, from_be_bytes, from-to_be_bytes, length-to_be_bytes}
use geph.Sosistab.Crypto.{Crypto}
use geph.Sosistab.Handshake.{
  Cookie, Handshake, Fits, bytes, from_bytes, cookie_key, encrypt, decrypt,
}

pub length-bytes : (h : Handshake) → Fits h → length (bytes h) ≡ 112
unfolding bytes
length-bytes h v = omega (
  arith,
  length-append h.eph_pk (
      to_be_bytes 8 h.timestamp
      ++ (to_be_bytes 8 h.padding_len ++ (h.padding_hash ++ h.responding_to))),
  length-append (to_be_bytes 8 h.timestamp)
      (to_be_bytes 8 h.padding_len ++ (h.padding_hash ++ h.responding_to)),
  length-append (to_be_bytes 8 h.padding_len) (h.padding_hash ++ h.responding_to),
  length-append h.padding_hash h.responding_to,
  length-to_be_bytes 8 h.timestamp,
  length-to_be_bytes 8 h.padding_len,
)

-- The parts of a list of parts whose sizes are those of the fields.
module _ (a b c d e : List ℕ) where
  abbrev whole : List ℕ
  whole = a ++ (b ++ (c ++ (d ++ e)))

  parts :
      length a ≡ 32
      → length b ≡ 8
      → length c ≡ 8
      → length d ≡ 32
      → length e ≡ 32
      → (take 32 whole ≡ a)
        × (take 8 (drop 32 whole) ≡ b)
        × (take 8 (drop 40 whole) ≡ c)
        × (take 32 (drop 48 whole) ≡ d)
        × (take 32 (drop 80 whole) ≡ e)
  parts ha hb hc hd he =
      let b_on : drop 32 whole ≡ b ++ (c ++ (d ++ e)) = drop-append 32 a _ (sym ha) in
      let c_on : drop 40 whole ≡ c ++ (d ++ e) =
        drop_past 40 8 a _ (omega (arith, ha)) ∙ drop-append 8 b _ (sym hb) in
      let d_on : drop 48 whole ≡ d ++ e =
        drop_past 48 16 a _ (omega (arith, ha))
        ∙ drop_past 16 8 b _ (omega (arith, hb))
        ∙ drop-append 8 c _ (sym hc) in
      let e_on : drop 80 whole ≡ e =
        drop_past 80 48 a _ (omega (arith, ha))
        ∙ drop_past 48 40 b _ (omega (arith, hb))
        ∙ drop_past 40 32 c _ (omega (arith, hc))
        ∙ drop-append 32 d _ (sym hd) in
      (
        take-append 32 a _ (sym ha),
        ap (take 8) b_on ∙ take-append 8 b _ (sym hb),
        ap (take 8) c_on ∙ take-append 8 c _ (sym hc),
        ap (take 32) d_on ∙ take-append 32 d _ (sym hd),
        ap (take 32) e_on ∙ take-length 32 e (sym he),
      )

-- A handshake whose fields have their widths is read back from its bytes.
pub from_bytes-bytes : (h : Handshake) → Fits h → from_bytes (bytes h) ≡ h
unfolding from_bytes bytes
from_bytes-bytes h v =
    let p =
      parts h.eph_pk (to_be_bytes 8 h.timestamp) (to_be_bytes 8 h.padding_len) h.padding_hash
        h.responding_to v.eph_pk_fits (length-to_be_bytes 8 h.timestamp)
        (length-to_be_bytes 8 h.padding_len) v.padding_hash_fits v.responding_to_fits in
    λ i. record {
      eph_pk = p.0 i;
      timestamp = (ap from_be_bytes p.1 ∙ from-to_be_bytes 8 h.timestamp v.timestamp_fits) i;
      padding_len = (ap from_be_bytes p.2 ∙ from-to_be_bytes 8 h.padding_len v.padding_len_fits) i;
      padding_hash = p.3 i;
      responding_to = p.4 i;
    }

module _ (c : Crypto) where
  pub length-encrypt :
      (h : Handshake) (k : Cookie) (is_server : Bool) (nonce : List ℕ)
      → Fits h
      → length nonce ≡ 12
      → length (encrypt c h k is_server nonce) ≡ 140
  unfolding encrypt
  length-encrypt h k is_server nonce v n =
      let sealed = c.seal (cookie_key c k is_server) nonce (bytes h) in
      omega (
        arith,
        n,
        length-append nonce (sealed.0 ++ sealed.1),
        length-append sealed.0 sealed.1,
        c.length-cipher (cookie_key c k is_server) nonce (bytes h),
        c.length-tag (cookie_key c k is_server) nonce (bytes h),
        length-bytes h v,
      )

  unsealed :
      (nonce cipher tag key : List ℕ)
      → length nonce ≡ 12
      → length cipher ≡ 112
      → length tag ≡ 16
      → let bs : List ℕ = nonce ++ (cipher ++ tag) in
        c.unseal key (take 12 bs) (take 112 (drop 12 bs)) (take 16 (drop 124 bs))
        ≡ c.unseal key nonce cipher tag
  unsealed nonce cipher tag key n m t =
      let rest : drop 12 (nonce ++ (cipher ++ tag)) ≡ cipher ++ tag =
        drop-append 12 nonce (cipher ++ tag) (sym n) in
      let past : drop 124 (nonce ++ (cipher ++ tag)) ≡ tag =
        drop_past 124 112 nonce (cipher ++ tag) (omega (arith, n))
        ∙ drop-append 112 cipher tag (sym m) in
      let x : take 12 (nonce ++ (cipher ++ tag)) ≡ nonce =
        take-append 12 nonce (cipher ++ tag) (sym n) in
      let y : take 112 (drop 12 (nonce ++ (cipher ++ tag))) ≡ cipher =
        ap (take 112) rest ∙ take-append 112 cipher tag (sym m) in
      let z : take 16 (drop 124 (nonce ++ (cipher ++ tag))) ≡ tag =
        ap (take 16) past ∙ take-length 16 tag (sym t) in
      λ i. c.unseal key (x i) (y i) (z i)

  decrypt_of :
      (bs plain : List ℕ) (k : Cookie) (is_server : Bool)
      → c.unseal
          (cookie_key c k is_server)
          (take 12 bs)
          (take 112 (drop 12 bs))
          (take 16 (drop 124 bs))
        ≡ some plain
      → decrypt c bs k is_server ≡ some (from_bytes plain)
  unfolding decrypt
  decrypt_of bs plain k is_server e = rw (e, decrypt)

  -- A handshake whose fields have their widths, that one end encrypts with the cookie and a nonce
  -- of 12 bytes, and that the other decrypts with the cookie under the same direction, arrives as
  -- it was.
  pub decrypt-encrypt :
      (h : Handshake) (k : Cookie) (is_server : Bool) (nonce : List ℕ)
      → Fits h
      → length nonce ≡ 12
      → decrypt c (encrypt c h k is_server nonce) k is_server ≡ some h
  unfolding encrypt
  decrypt-encrypt h k is_server nonce v n =
      let key : List ℕ = cookie_key c k is_server in
      decrypt_of _ (bytes h) k is_server (
        unsealed nonce (c.seal key nonce (bytes h)).0 (c.seal key nonce (bytes h)).1 key n
          (c.length-cipher key nonce (bytes h) ∙ length-bytes h v)
          (c.length-tag key nonce (bytes h))
        ∙ c.unseal-seal key nonce (bytes h))
      ∙ ap some (from_bytes-bytes h v)
