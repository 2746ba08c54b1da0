-- ===== src/Framing.antt =====
-- framing.go: length-prefixed frames on a byte stream.
pub mod Laws
pub mod Consumption
mod Tests
use secure_network.Prelude.{
  ℕ, zero, suc, ◌+◌, ◌*◌, ◌/◌, ◌%◌, ◌^◌, Bool, List, [], ◌∷◌, Option, none, some, Bytes, length,
  take, drop, eqb, ltb, leb, if◌then◌else◌, Result, ok, err,
}

-- MaxFrameSize
abbrev pub max_frame_size : ℕ
max_frame_size = 16 * 1024 * 1024

-- binary.BigEndian.PutUint32 and Uint32.
unfoldable pub put_uint32 : ℕ → Bytes
put_uint32 n = n / 0x1000000 % 256 ∷ n / 0x10000 % 256 ∷ n / 0x100 % 256 ∷ n % 256 ∷ []

unfoldable pub uint32 : Bytes → ℕ
uint32 (a ∷ b ∷ c ∷ d ∷ _) = ((a * 256 + b) * 256 + c) * 256 + d
uint32 _ = 0

pub data FrameError : Type 0 where
  eof unexpected_eof empty_frame too_large : FrameError

-- io.ReadFull over the bytes that the reader will still deliver before its end: the bytes read,
-- and what is left.
pub read_full : ℕ → Bytes → Result FrameError Bytes × Bytes
read_full n r =
    if leb n (length r)
    then (ok (take n r), drop n r)
    else (err (if eqb (length r) 0 then eof else unexpected_eof), [])

read_body : ℕ → ℕ → Bytes → Result FrameError Bytes × Bytes
unfolding read_full
read_body size max r =
    if eqb size 0
    then (err empty_frame, r)
    else if ltb max size
    then (err too_large, r)
    else read_full size r

-- ReadFrame: the result, and the rest of the stream.
unfoldable pub read_frame : Bytes → ℕ → Result FrameError Bytes × Bytes
unfolding read_full read_body uint32
read_frame r max =
    let (header, rest) = read_full 4 r in
    elim header [ ok hdr ↦ read_body (uint32 hdr) max rest | err e ↦ (err e, rest) ]

-- WriteFrame, on any io.Writer: `write` is its method, `none` a nil error.
module _ {W E : Type 0} (write : W → Bytes → W × Option E) where
  write_body : Bytes → W × Option E → W × Option E
  write_body payload (w, none) = write w payload
  write_body payload (w, some e) = (w, some e)

  unfoldable pub write_frame : W → Bytes → W × Option E
  unfolding write_body put_uint32
  write_frame w payload = write_body payload (write w (put_uint32 (length payload % 2 ^ 32)))
