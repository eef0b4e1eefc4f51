-- ===== src/Picomux/Frame/Tests.antt =====
-- Frames as bytes, and the theorems of Wire at concrete frames.
use geph.Base.{◌≡◌, refl, [], ◌∷◌, ◌++◌, some, arith}
use geph.Picomux.Frame.{
  Frame, new, new_empty, cmd_more, cmd_fin, cmd_psh, header_bytes, bytes, read,
}
use geph.Picomux.Frame.Wire.{read-bytes-new, read_many, read_many-bytes, concat_bytes}

abbrev more : Frame
unfolding new
more = new 0x01020304 cmd_more (0x2c ∷ 1 ∷ [])

abbrev fin : Frame
unfolding new_empty
fin = new_empty 5 cmd_fin

bytes-more : bytes more ≡ 1 ∷ 4 ∷ 2 ∷ 0 ∷ 4 ∷ 3 ∷ 2 ∷ 1 ∷ 0x2c ∷ 1 ∷ []
unfolding bytes header_bytes new more
bytes-more = refl

read_many-bytes_example :
    read_many 2 (concat_bytes (more ∷ fin ∷ []) ++ []) ≡ some (more ∷ fin ∷ [], [])
unfolding new more fin new_empty
read_many-bytes_example = read_many-bytes (more ∷ fin ∷ []) [] (omega arith)

read-bytes-new_example :
    read (bytes (new 5 cmd_psh (1 ∷ 2 ∷ [])) ++ (8 ∷ []))
    ≡ some (record (new 5 cmd_psh (1 ∷ 2 ∷ [])) { body = 1 ∷ 2 ∷ [] }, 8 ∷ [])
read-bytes-new_example = read-bytes-new 5 cmd_psh (1 ∷ 2 ∷ []) (8 ∷ []) (omega arith) (omega arith)
