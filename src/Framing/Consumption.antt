-- ===== src/Framing/Consumption.antt =====
-- ReadFrame uses up the bytes of its stream, so that a loop of it ends.
use secure_network.Prelude.{
  ℕ, ◌+◌, ◌*◌, ◌<◌, ◌≤◌, ◌≡◌, arith, [], ◌∷◌, Bytes, length, length-drop, ok, err,
}
use secure_network.Framing.{too_large, read_frame, read_full, read_body, uint32}

read_full-length : (n : ℕ) (r : Bytes) → length (read_full n r).1 ≤ length r
unfolding read_full
read_full-length n r = ground (arith, length-drop n r)

read_body-length : (size max : ℕ) (r : Bytes) → length (read_body size max r).1 ≤ length r
unfolding read_body
read_body-length size max r = ground (arith, read_full-length size r)

pub read_frame-length_le : (r : Bytes) (max : ℕ) → length (read_frame r max).1 ≤ length r
unfolding read_frame read_full
read_frame-length_le [] max = ground arith
read_frame-length_le (a ∷ []) max = ground arith
read_frame-length_le (a ∷ b ∷ []) max = ground arith
read_frame-length_le (a ∷ b ∷ c ∷ []) max = ground arith
read_frame-length_le (a ∷ b ∷ c ∷ d ∷ r) max =
    ground (arith, read_body-length (uint32 (a ∷ b ∷ c ∷ d ∷ [])) max r)

pub read_frame-length_lt :
    (r p : Bytes) (max : ℕ) → (read_frame r max).0 ≡ ok p → length (read_frame r max).1 < length r
unfolding read_frame read_full
read_frame-length_lt [] p max e = ground arith
read_frame-length_lt (a ∷ []) p max e = ground arith
read_frame-length_lt (a ∷ b ∷ []) p max e = ground arith
read_frame-length_lt (a ∷ b ∷ c ∷ []) p max e = ground arith
read_frame-length_lt (a ∷ b ∷ c ∷ d ∷ r) p max e =
    ground (arith, read_body-length (uint32 (a ∷ b ∷ c ∷ d ∷ [])) max r)

-- A length above the limit is refused.
pub read_frame_large :
    (a b c d : ℕ) (r : Bytes) (max : ℕ)
    → max < ((a * 256 + b) * 256 + c) * 256 + d
    → (read_frame (a ∷ b ∷ c ∷ d ∷ r) max).0 ≡ err too_large
unfolding read_frame read_full read_body uint32
read_frame_large a b c d r max large = ground arith
