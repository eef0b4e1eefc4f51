-- ===== src/Session/Prepend.antt =====
-- libraries/geph5-misc-rpc/src/lib.rs: values with their length before them.
use geph.Base.{
  ℕ, ◌%◌, ◌^◌, ◌<◌, ◌≡◌, refl, sym, ap, ◌∙◌, List, ◌++◌, append_assoc, Option, none, some, length,
  arith,
}
use geph.Base.Bytes.{
  to_be_bytes, from_be_bytes, read_exact, read_exact-append, length-to_be_bytes, from-to_be_bytes,
}

-- The length is cast to 32 bits.
unfoldable pub write_prepend_length : List ℕ → List ℕ
write_prepend_length value = to_be_bytes 4 (length value % 2 ^ 32) ++ value

unfoldable pub read_prepend_length : List ℕ → Option (List ℕ × List ℕ)
read_prepend_length input = elim (read_exact 4 input) [
  | none ↦ none
  | some (len_buf, rest) ↦ read_exact (from_be_bytes len_buf) rest
]

read_prepend_length_of :
    (input len_buf rest : List ℕ)
    → read_exact 4 input ≡ some (len_buf, rest)
    → read_prepend_length input ≡ read_exact (from_be_bytes len_buf) rest
unfolding read_prepend_length
read_prepend_length_of input len_buf rest e = rw (e, read_prepend_length) refl

-- A value of less than 2^32 bytes is read back as it was written, and the bytes behind it are left.
pub read-write_prepend_length :
    (value rest : List ℕ)
    → length value < 2 ^ 32
    → read_prepend_length (write_prepend_length value ++ rest) ≡ some (value, rest)
unfolding write_prepend_length
read-write_prepend_length value rest h =
    let small : length value % 2 ^ 32 ≡ length value = omega arith in
    let len_buf : List ℕ = to_be_bytes 4 (length value) in
    ap (λ n. read_prepend_length ((to_be_bytes 4 n ++ value) ++ rest)) small
    ∙ read_prepend_length_of ((len_buf ++ value) ++ rest) len_buf (value ++ rest) (
        ap (read_exact 4) (append_assoc len_buf value rest)
        ∙ read_exact-append 4 len_buf (value ++ rest) (sym (length-to_be_bytes 4 (length value))))
    ∙ ap (λ n. read_exact n (value ++ rest)) (from-to_be_bytes 4 (length value) h)
    ∙ read_exact-append (length value) value rest refl
