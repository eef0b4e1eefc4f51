-- ===== src/Picomux/Frame.antt =====
-- libraries/picomux/src/frame.rs: the frame, its commands, its bytes and how it is read.
-- The header is `repr(C)` and goes out by `bytemuck::bytes_of` in the byte order of the machine,
-- which is taken to be little-endian, as on every platform that the program is built for.
pub mod Wire
pub mod Tests
use geph.Base.{ℕ, ◌%◌, ◌^◌, ◌<◌, ◌≡◌, List, [], ◌∷◌, ◌++◌, Option, none, some, length, take, drop}
use geph.Base.Bytes.{to_le_bytes, from_le_bytes, read_exact}

pub record Header : Type 0 where
  pub version : ℕ
  pub command : ℕ
  pub body_len : ℕ
  pub stream_id : ℕ

pub record Frame : Type 0 where
  pub header : Header
  pub body : List ℕ

abbrev pub cmd_syn : ℕ
cmd_syn = 0

abbrev pub cmd_fin : ℕ
cmd_fin = 1

abbrev pub cmd_psh : ℕ
cmd_psh = 2

abbrev pub cmd_nop : ℕ
cmd_nop = 3

abbrev pub cmd_more : ℕ
cmd_more = 4

abbrev pub cmd_ping : ℕ
cmd_ping = 0xa0

abbrev pub cmd_pong : ℕ
cmd_pong = 0xa1

-- `size_of::<Header>()`
abbrev pub header_len : ℕ
header_len = 8

unfoldable pub new_empty : ℕ → ℕ → Frame
new_empty stream_id command = record {
  header = record { version = 1; command = command; body_len = 0; stream_id = stream_id };
  body = [];
}

-- `body.len() as _` keeps the low 16 bits of the length.
unfoldable pub new : ℕ → ℕ → List ℕ → Frame
new stream_id command body = record {
  header = record {
    version = 1;
    command = command;
    body_len = length body % 2 ^ 16;
    stream_id = stream_id;
  };
  body = body;
}

-- `bytemuck::bytes_of(&header)`
unfoldable pub header_bytes : Header → List ℕ
header_bytes h =
    to_le_bytes 1 h.version
    ++ (to_le_bytes 1 h.command ++ (to_le_bytes 2 h.body_len ++ to_le_bytes 4 h.stream_id))

-- `bytemuck::cast(header_buf)`
unfoldable pub header_cast : List ℕ → Header
header_cast bs = record {
  version = from_le_bytes (take 1 bs);
  command = from_le_bytes (take 1 (drop 1 bs));
  body_len = from_le_bytes (take 2 (drop 2 bs));
  stream_id = from_le_bytes (take 4 (drop 4 bs));
}

unfoldable pub bytes : Frame → List ℕ
bytes f = header_bytes f.header ++ f.body

infixl 5 ◌>>=◌
abbrev ◌>>=◌ : {A B : Type 0} → Option A → (A → Option B) → Option B
none >>= f = none
some a >>= f = f a

-- The frame and what follows it; `none` if the reader ends before the frame does.
unfoldable pub read : List ℕ → Option (Frame × List ℕ)
read rdr = do
  (header_buf, rdr') ← read_exact header_len rdr
  let header = header_cast header_buf
  (body, rest) ← read_exact header.body_len rdr'
  some (record { header = header; body = body }, rest)

-- The fields fit the widths of their types.
pub record Fits (h : Header) : Type 0 where
  pub version_fits : h.version < 256
  pub command_fits : h.command < 256
  pub body_len_fits : h.body_len < 2 ^ 16
  pub stream_id_fits : h.stream_id < 2 ^ 32

-- A frame whose header tells the truth about its body.
pub record IsValid (f : Frame) : Type 0 where
  pub fits : Fits f.header
  pub counted : f.header.body_len ≡ length f.body
