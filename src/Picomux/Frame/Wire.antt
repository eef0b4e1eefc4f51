-- ===== src/Picomux/Frame/Wire.antt =====
-- libraries/picomux/src/frame.rs: what `read` makes of the bytes of a frame.
use geph.Base.{
  ℕ, zero, suc, ◌%◌, ◌^◌, ◌≤◌, ◌<◌, ◌≡◌, refl, sym, ◌∙◌, List, [], ◌∷◌, ◌++◌, Option, none, some,
  length, take, drop, append_assoc, arith, take-append_le, drop-append_le, length-append, All,
  take-length, drop-length,
}
use geph.Base.Bytes.{to_le_bytes, from_le_bytes, from-to_le_bytes, read_exact_le, read_exact-append}
use geph.Picomux.Frame.{
  Header, Frame, header_bytes, header_cast, header_len, bytes, read, new, Fits, IsValid,
}

length-header_bytes : (h : Header) → length (header_bytes h) ≡ header_len
unfolding header_bytes
length-header_bytes h = refl

header_cast-bytes : (h : Header) → Fits h → header_cast (header_bytes h) ≡ h
unfolding header_cast header_bytes
header_cast-bytes h v =
    let f : (w n : ℕ) → n < 256 ^ w → from_le_bytes (to_le_bytes w n) ≡ n = from-to_le_bytes in
    λ i. record {
      version = f 1 h.version v.version_fits i;
      command = f 1 h.command v.command_fits i;
      body_len = f 2 h.body_len v.body_len_fits i;
      stream_id = f 4 h.stream_id v.stream_id_fits i;
    }

-- What the bytes of a frame read back as, when its body is at least as long as its header says:
-- the body is cut to the length in the header, and the rest of it stays in the stream.
pub read-bytes_cut :
    (f : Frame) (rest : List ℕ)
    → Fits f.header
    → f.header.body_len ≤ length f.body
    → read (bytes f ++ rest)
      ≡ some
          (record f { body = take f.header.body_len f.body }, drop f.header.body_len f.body ++ rest)
unfolding read bytes
read-bytes_cut f rest v h = rw (
  append_assoc (header_bytes f.header) f.body rest,
  read_exact-append header_len (header_bytes f.header) (f.body ++ rest)
      (sym (length-header_bytes f.header)),
  header_cast-bytes f.header v,
  read_exact_le f.header.body_len (f.body ++ rest) long,
  take-append_le f.header.body_len f.body rest h,
  drop-append_le f.header.body_len f.body rest h,
)
  where
    long : f.header.body_len ≤ length (f.body ++ rest)
    long = omega (arith, length-append f.body rest)

-- A frame whose fields have their widths, and whose header counts its body, reads back whole, and
-- the reader stands just behind it.
pub read-bytes : (f : Frame) (rest : List ℕ) → IsValid f → read (bytes f ++ rest) ≡ some (f, rest)
read-bytes f rest v =
    read-bytes_cut f rest v.fits (omega arith)
    ∙ rw (
      take-length f.header.body_len f.body v.counted,
      drop-length f.header.body_len f.body v.counted,
    )

-- What `new` makes of any body, for a stream id of 32 bits and a command of 8, sent and read back:
-- the body comes back cut to its length modulo 2^16, and the rest of it is left in the stream as if
-- the next frame began there.
pub read-bytes-new :
    (stream_id command : ℕ) (body rest : List ℕ)
    → stream_id < 2 ^ 32
    → command < 256
    → let n = length body % 2 ^ 16 in
      read (bytes (new stream_id command body) ++ rest)
      ≡ some (record (new stream_id command body) { body = take n body }, drop n body ++ rest)
unfolding new
read-bytes-new stream_id command body rest hs hc =
    read-bytes_cut (new stream_id command body) rest (omega arith) (omega arith)

-- Every frame of a list, in turn: `none` where the stream ends inside a frame.
abbrev pub concat_bytes : List Frame → List ℕ
concat_bytes [] = []
concat_bytes (f ∷ fs) = bytes f ++ concat_bytes fs

unfoldable pub read_many : ℕ → List ℕ → Option (List Frame × List ℕ)
read_many zero rdr = some ([], rdr)
read_many (suc n) rdr = elim (read rdr) [
  | none ↦ none
  | some (f, rdr') ↦ elim (read_many n rdr') [ none ↦ none | some (fs, rest) ↦ some (f ∷ fs, rest) ]
]

-- Frames whose fields have their widths, and whose headers count their bodies, written one after
-- the other, are read back as the same frames in the same order.
pub read_many-bytes :
    (fs : List Frame) (rest : List ℕ)
    → All IsValid fs
    → read_many (length fs) (concat_bytes fs ++ rest) ≡ some (fs, rest)
unfolding read_many
read_many-bytes [] rest v = refl
read_many-bytes (f ∷ fs) rest v =
    rw (append_assoc (bytes f) (concat_bytes fs) rest)
      (ground (arith, read-bytes f (concat_bytes fs ++ rest) v.0, read_many-bytes fs rest v.1))
