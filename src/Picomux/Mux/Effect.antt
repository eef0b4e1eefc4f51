-- ===== src/Picomux/Mux/Effect.antt =====
-- What one round of the receive loop does to the table of buffers and to the running streams.
use geph.Base.{ℕ, ◌≡◌, false, ◌∷◌, ◌==◌, ◌||◌, arith, Bool-cases, inl, inr, ◌⊎◌}
use geph.Base.Bytes.{from_le_bytes}
use geph.Picomux.Frame.{Frame, cmd_syn, cmd_more, cmd_psh, cmd_fin}
use geph.Picomux.BufferTable.{contains_id, create_entry, send_to, incr_send_window}
use geph.Picomux.Mux.{Queues, Mux, ok, on_syn, on_frame}

module _ (q : Queues) where
  open q use {packages}

  pub data Effect (m : Mux q) (f : Frame) (now : ℕ) (m' : Mux q) : Type 0 where
    opens :
        f.header.command ≡ cmd_syn
        → contains_id packages m.table f.header.stream_id ≡ false
        → m'.table ≡ (create_entry packages m.table f.header.stream_id).1
        → m'.live ≡ f.header.stream_id ∷ m.live
        → Effect m f now m'
    credits :
        f.header.command ≡ cmd_more
        → m'.table ≡ incr_send_window packages m.table f.header.stream_id (from_le_bytes f.body)
        → m'.live ≡ m.live
        → Effect m f now m'
    buffers :
        (f.header.command ≡ cmd_psh) ⊎ (f.header.command ≡ cmd_fin)
        → m'.table ≡ send_to packages m.table f.header.stream_id f now
        → m'.live ≡ m.live
        → Effect m f now m'
    leaves : m'.table ≡ m.table → m'.live ≡ m.live → Effect m f now m'

  on_syn_ok :
      (m m' : Mux q) (f : Frame)
      → on_syn q m f ≡ ok m'
      → (contains_id packages m.table f.header.stream_id ≡ false)
        × (m'.table ≡ (create_entry packages m.table f.header.stream_id).1)
        × (m'.live ≡ f.header.stream_id ∷ m.live)
  unfolding on_syn
  on_syn_ok m m' f h = ground arith

  pub on_frame-Effect :
      (m m' : Mux q) (f : Frame) (now : ℕ) → on_frame q m f now ≡ ok m' → Effect m f now m'
  unfolding on_frame
  on_frame-Effect m m' f now h = elim (Bool-cases (f.header.command == cmd_syn)) [
    | inl e ↦ let (a, b, c) = on_syn_ok m m' f (ground arith) in opens (ground arith) a b c
    | inr n ↦ elim (Bool-cases (f.header.command == cmd_more)) [
      | inl e ↦ credits (ground arith) (ground arith) (ground arith)
      | inr n' ↦ elim (Bool-cases (f.header.command == cmd_psh || f.header.command == cmd_fin)) [
        | inl e ↦ buffers (ground arith) (ground arith) (ground arith)
        | inr n'' ↦ leaves (ground arith) (ground arith)
      ]
    ]
  ]
