-- ===== src/Framing/Laws.antt =====
-- What a frame is, and that ReadFrame undoes WriteFrame.
use secure_network.Prelude.{
  ℕ, zero, suc, ◌⊎◌, ◌||◌, eqb, if◌then◌else◌, err, take, ◌↔◌, ◌%◌, ◌^◌, ◌≤◌, ◌<◌, ◌≡◌, refl, ap,
  sym, ◌∙◌, subst, [], ◌∷◌, ◌++◌, Option, none, some, arith, Bytes, length, ok, length-append,
  length-take, take-append, drop-append, append_assoc, take-append-drop,
}
use secure_network.Strings.Hex.{IsByteList}
use secure_network.Framing.{
  eof, unexpected_eof, empty_frame, too_large, put_uint32, uint32, read_full, read_body, read_frame,
  write_body, write_frame,
}

pub uint32-put_uint32 : (n : ℕ) (r : Bytes) → n < 2 ^ 32 → uint32 (put_uint32 n ++ r) ≡ n
unfolding uint32 put_uint32
uint32-put_uint32 n r h = omega arith

unfoldable pub frame : Bytes → Bytes
unfolding put_uint32
frame payload = put_uint32 (length payload) ++ payload

read_frame-header :
    (n max : ℕ) (r : Bytes) → n < 2 ^ 32 → read_frame (put_uint32 n ++ r) max ≡ read_body n max r
unfolding read_frame put_uint32 uint32 read_full
read_frame-header n max r h = ground (arith, uint32-put_uint32 n [] h)

read_body_enough :
    (max : ℕ) (p rest : Bytes)
    → 0 < length p
    → length p ≤ max
    → read_body (length p) max (p ++ rest) ≡ (ok p, rest)
unfolding read_body read_full
read_body_enough max p rest pos fits =
    ground (arith, length-append p rest, take-append p rest, drop-append p rest)

pub read_frame-frame :
    (max : ℕ) (p rest : Bytes)
    → max < 2 ^ 32
    → 0 < length p
    → length p ≤ max
    → read_frame (frame p ++ rest) max ≡ (ok p, rest)
unfolding frame
read_frame-frame max p rest small pos fits =
    ap (λ s. read_frame s max) (append_assoc (put_uint32 (length p)) p rest)
    ∙ read_frame-header (length p) max (p ++ rest) (omega arith)
    ∙ read_body_enough max p rest pos fits

-- What io.Writer documents: a nil error says that the whole argument was written.
pub record IsWriter {W E : Type 0} (write : W → Bytes → W × Option E) (contents : W → Bytes)
    : Type 0 where
  pub whole : (w : W) (p : Bytes) → (write w p).1 ≡ none → contents (write w p).0 ≡ contents w ++ p

module _ {W E : Type 0} (write : W → Bytes → W × Option E) (contents : W → Bytes)
    (writer : IsWriter write contents) where
  write_body-contents :
      (p h s : Bytes) (r : W × Option E)
      → (r.1 ≡ none → contents r.0 ≡ s ++ h)
      → (write_body write p r).1 ≡ none
      → contents (write_body write p r).0 ≡ s ++ (h ++ p)
  unfolding write_body
  write_body-contents p h s (w, none) first e =
      writer.whole w p e ∙ ap (λ t. t ++ p) (first refl) ∙ append_assoc s h p
  write_body-contents p h s (w, some x) first e = cc

  pub write_frame-contents :
      (w : W) (p : Bytes)
      → length p < 2 ^ 32
      → (write_frame write w p).1 ≡ none
      → contents (write_frame write w p).0 ≡ contents w ++ frame p
  unfolding write_frame frame
  write_frame-contents w p small =
      subst
        (λ n.
          (write_body write p (write w (put_uint32 n))).1 ≡ none
          → contents (write_body write p (write w (put_uint32 n))).0 ≡ contents w ++ frame p)
        (sym fits) here
    where
      fits : length p % 2 ^ 32 ≡ length p
      fits = omega arith

      header : Bytes
      header = put_uint32 (length p)

      here :
          (write_body write p (write w header)).1 ≡ none
          → contents (write_body write p (write w header)).0 ≡ contents w ++ (header ++ p)
      here = write_body-contents p header (contents w) (write w header) (writer.whole w header)

put_uint32-uint32 :
    (a b c d : ℕ) (r : Bytes)
    → IsByteList (a ∷ b ∷ c ∷ d ∷ [])
    → put_uint32 (uint32 (a ∷ b ∷ c ∷ d ∷ r)) ≡ a ∷ b ∷ c ∷ d ∷ []
unfolding put_uint32 uint32
put_uint32-uint32 a b c d r h = ground arith

read_body_sound :
    (n max : ℕ) (r p rest : Bytes)
    → read_body n max r ≡ (ok p, rest)
    → (length p ≡ n) × (0 < n) × (n ≤ max) × (r ≡ p ++ rest)
unfolding read_body read_full
read_body_sound n max r p rest e = ground (arith, take-append-drop n r, length-take n r)

read_frame_sound :
    (r p rest : Bytes) (max : ℕ)
    → IsByteList r
    → read_frame r max ≡ (ok p, rest)
    → (r ≡ frame p ++ rest) × (0 < length p) × (length p ≤ max)
unfolding read_frame read_full frame
read_frame_sound [] p rest max h e = ground arith
read_frame_sound (a ∷ []) p rest max h e = ground arith
read_frame_sound (a ∷ b ∷ []) p rest max h e = ground arith
read_frame_sound (a ∷ b ∷ c ∷ []) p rest max h e = ground arith
read_frame_sound (a ∷ b ∷ c ∷ d ∷ r) p rest max (ha, (hb, (hc, (hd, _)))) e = ground (
  arith,
  read_body_sound (uint32 (a ∷ b ∷ c ∷ d ∷ [])) max r p rest,
  put_uint32-uint32 a b c d [] (ha, (hb, (hc, (hd, tt)))),
)

-- For a stream of bytes and a limit below 2^32, ReadFrame returns the payload `p` and leaves `rest`
-- exactly when the stream is the frame of `p`, the big-endian length and then `p`, followed by
-- `rest`, and `p` is not empty and not longer than the limit.
pub read_frame_iff :
    (r p rest : Bytes) (max : ℕ)
    → IsByteList r
    → max < 2 ^ 32
    → (read_frame r max ≡ (ok p, rest))
      ↔ ((r ≡ frame p ++ rest) × (0 < length p) × (length p ≤ max))
read_frame_iff r p rest max h small = (
  read_frame_sound r p rest max h,
  λ (e, pos, fits). ap (λ s. read_frame s max) e ∙ read_frame-frame max p rest small pos fits,
)

read_frame-frame_refused :
    (max : ℕ) (p rest : Bytes)
    → length p < 2 ^ 32
    → ((length p ≡ 0) ⊎ (max < length p))
    → read_frame (frame p ++ rest) max
      ≡ (err (if eqb (length p) 0 then empty_frame else too_large), p ++ rest)
unfolding frame read_body
read_frame-frame_refused max p rest small bad =
    ap (λ s. read_frame s max) (append_assoc (put_uint32 (length p)) p rest)
    ∙ read_frame-header (length p) max (p ++ rest) small
    ∙ ground arith

module _ {W E : Type 0} (write : W → Bytes → W × Option E) (contents : W → Bytes)
    (writer : IsWriter write contents) (w : W) (p rest : Bytes) (max : ℕ)
    (done : (write_frame write w p).1 ≡ none) where
  -- Where the io.Writer keeps its contract and WriteFrame returns nil, what WriteFrame appended to
  -- the writer is read back by ReadFrame as the same payload, whatever follows it on the stream,
  -- if the payload is not empty and within the reader's limit, which is below 2^32.
  pub read_frame-write_frame :
      max < 2 ^ 32
      → 0 < length p
      → length p ≤ max
      → (f : Bytes) × (contents (write_frame write w p).0 ≡ contents w ++ f)
        × (read_frame (f ++ rest) max ≡ (ok p, rest))
  read_frame-write_frame small pos fits = (
    frame p,
    write_frame-contents write contents writer w p (omega arith) done,
    read_frame-frame max p rest small pos fits,
  )

  -- WriteFrame checks no size: where it returns nil for an empty payload, or for one above the
  -- reader's limit (and below 2^32), ReadFrame refuses what was written, with the error for an empty
  -- frame or for one that is too large, and leaves the payload unread.
  pub read_frame-write_frame_refused :
      length p < 2 ^ 32
      → ((length p ≡ 0) ⊎ (max < length p))
      → (f : Bytes) × (contents (write_frame write w p).0 ≡ contents w ++ f)
        × (read_frame (f ++ rest) max
            ≡ (err (if eqb (length p) 0 then empty_frame else too_large), p ++ rest))
  read_frame-write_frame_refused small bad = (
    frame p,
    write_frame-contents write contents writer w p small done,
    read_frame-frame_refused max p rest small bad,
  )

-- A stream that ends inside a frame of an acceptable size gives an error and is used up: io.EOF if
-- it ends before the frame or right behind its header, io.ErrUnexpectedEOF anywhere else.
pub read_frame_truncated :
    (max k : ℕ) (p : Bytes)
    → length p < 2 ^ 32
    → 0 < length p
    → length p ≤ max
    → k < length (frame p)
    → read_frame (take k (frame p)) max
      ≡ (err (if eqb k 0 || eqb k 4 then eof else unexpected_eof), [])
unfolding read_frame read_full read_body put_uint32 frame
read_frame_truncated max zero p small pos fits short = ground arith
read_frame_truncated max (suc zero) p small pos fits short = ground arith
read_frame_truncated max (suc (suc zero)) p small pos fits short = ground arith
read_frame_truncated max (suc (suc (suc zero))) p small pos fits short = ground arith
read_frame_truncated max (suc (suc (suc (suc k)))) p small pos fits short =
    ground (arith, length-take k p, uint32-put_uint32 (length p) [] small)
