-- ===== src/Framing/Tests.antt =====
-- The framing's theorems at concrete frames, on a buffer as the writer.
use secure_network.Prelude.{
  ◌≡◌, refl, ◌↔◌, ◌<◌, ◌≤◌, [], ◌∷◌, ◌++◌, Option, none, arith, Bytes, length, ok, text,
}
use secure_network.Framing.{read_frame, write_frame, max_frame_size}
use secure_network.Framing.Laws.{IsWriter, frame, read_frame_iff, read_frame-write_frame}

-- bytes.Buffer: a write never fails.
abbrev buffer : Bytes → Bytes → Bytes × Option (Unit {0})
buffer w p = (w ++ p, none)

abbrev buffer-IsWriter : IsWriter buffer (λ w. w)
buffer-IsWriter = record { whole = λ w p e. refl }

abbrev hi : Bytes
hi = text "hi"

write_frame_test : write_frame buffer [] hi ≡ (0 ∷ 0 ∷ 0 ∷ 2 ∷ hi, none)
unfolding write_frame
write_frame_test = refl

read_frame_test : read_frame (0 ∷ 0 ∷ 0 ∷ 2 ∷ text "him") max_frame_size ≡ (ok hi, text "m")
unfolding read_frame
read_frame_test = refl

read_frame-write_frame_example :
    (f : Bytes) × ((write_frame buffer (text "a") hi).0 ≡ text "a" ++ f)
    × (read_frame (f ++ text "b") max_frame_size ≡ (ok hi, text "b"))
unfolding write_frame
read_frame-write_frame_example =
    read_frame-write_frame buffer (λ w. w) buffer-IsWriter (text "a") hi (text "b") max_frame_size
      refl (omega arith) (omega arith) (omega arith)

read_frame_iff_example :
    (read_frame (0 ∷ 0 ∷ 0 ∷ 2 ∷ text "him") 9 ≡ (ok hi, text "m"))
    ↔ ((0 ∷ 0 ∷ 0 ∷ 2 ∷ text "him" ≡ frame hi ++ text "m") × (0 < length hi) × (length hi ≤ 9))
read_frame_iff_example =
    read_frame_iff (0 ∷ 0 ∷ 0 ∷ 2 ∷ text "him") hi (text "m") 9 (omega arith) (omega arith)
