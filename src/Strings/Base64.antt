-- ===== src/Strings/Base64.antt =====
-- base64.StdEncoding: three bytes as four characters, padded by `=`. DecodeString skips the ends of
-- lines and does not check the unused bits of the last character.
use secure_network.Prelude.{
  ℕ, ◌+◌, ◌-◌, ◌*◌, ◌/◌, ◌%◌, ◌<◌, ◌≡◌, refl, ap, ◌∙◌, false, ◌&&◌, ◌||◌, [], ◌∷◌, Option, none,
  some, arith, Bytes, ltb, leb, eqb, if◌then◌else◌,
}
use secure_network.Strings.Hex.{IsByteList}

abbrev pad : ℕ
pad = b'='

-- The character of a number below 64.
sextet : ℕ → ℕ
sextet n =
    if ltb n 26
    then n + 65
    else if ltb n 52
    then n + 71
    else if ltb n 62
    then n - 4
    else if eqb n 62
    then b'+'
    else b'/'

-- The number of a character of the alphabet.
sextet_of : ℕ → Option ℕ
sextet_of c =
    if leb b'A' c && leb c b'Z'
    then some (c - 65)
    else if leb b'a' c && leb c b'z'
    then some (c - 71)
    else if leb b'0' c && leb c b'9'
    then some (c + 4)
    else if eqb c b'+'
    then some 62
    else if eqb c b'/'
    then some 63
    else none

encode_quads : Bytes → Bytes
encode_quads [] = []
encode_quads (a ∷ []) = sextet (a / 4) ∷ sextet (a % 4 * 16) ∷ pad ∷ pad ∷ []
encode_quads (a ∷ b ∷ []) =
    sextet (a / 4) ∷ sextet (a % 4 * 16 + b / 16) ∷ sextet (b % 16 * 4) ∷ pad ∷ []
encode_quads (a ∷ b ∷ c ∷ r) =
    sextet (a / 4)
    ∷ sextet (a % 4 * 16 + b / 16)
    ∷ sextet (b % 16 * 4 + c / 64)
    ∷ sextet (c % 64)
    ∷ encode_quads r

unfoldable pub encode_base64 : Bytes → Bytes
unfolding encode_quads sextet
encode_base64 s = encode_quads s

abbrev join1 : Option ℕ → Option ℕ → Option Bytes
join1 (some w) (some x) = some ((w * 4 + x / 16) ∷ [])
join1 _ _ = none

abbrev join2 : Option ℕ → Option ℕ → Option ℕ → Option Bytes
join2 (some w) (some x) (some y) = some ((w * 4 + x / 16) ∷ (x % 16 * 16 + y / 4) ∷ [])
join2 _ _ _ = none

abbrev join3 : Option ℕ → Option ℕ → Option ℕ → Option ℕ → Option Bytes → Option Bytes
join3 (some w) (some x) (some y) (some z) (some r) =
    some ((w * 4 + x / 16) ∷ (x % 16 * 16 + y / 4) ∷ (y % 4 * 64 + z) ∷ r)
join3 _ _ _ _ _ = none

abbrev at_end : Bytes → Option Bytes → Option Bytes
at_end [] o = o
at_end (c ∷ s) o = none

decode_quads : Bytes → Option Bytes
decode_quads [] = some []
decode_quads (w ∷ x ∷ y ∷ z ∷ r) =
    let more = join3 (sextet_of w) (sextet_of x) (sextet_of y) (sextet_of z) (decode_quads r) in
    if eqb z pad
    then at_end r (
        if eqb y pad
        then join1 (sextet_of w) (sextet_of x)
        else join2 (sextet_of w) (sextet_of x) (sextet_of y))
    else more
decode_quads _ = none

drop_line_ends : Bytes → Bytes
drop_line_ends [] = []
drop_line_ends (c ∷ s) =
    let rest = drop_line_ends s in if eqb c 10 || eqb c 13 then rest else c ∷ rest

unfoldable pub decode_base64 : Bytes → Option Bytes
unfolding decode_quads drop_line_ends sextet_of
decode_base64 s = decode_quads (drop_line_ends s)

sextet_of-sextet : (n : ℕ) → n < 64 → sextet_of (sextet n) ≡ some n
unfolding sextet sextet_of
sextet_of-sextet n h = ground arith

-- No character of the alphabet is `=` or ends a line.
sextet_plain :
    (n : ℕ)
    → n < 64
    → (eqb (sextet n) pad ≡ false) × ((eqb (sextet n) 10 || eqb (sextet n) 13) ≡ false)
unfolding sextet
sextet_plain n h = ground arith

decode_quads_one : (a : ℕ) → a < 256 → decode_quads (encode_quads (a ∷ [])) ≡ some (a ∷ [])
unfolding encode_quads decode_quads
decode_quads_one a h =
    ground
      (arith, sextet_of-sextet (a / 4) (omega arith), sextet_of-sextet (a % 4 * 16) (omega arith))

decode_quads_two :
    (a b : ℕ) → a < 256 → b < 256 → decode_quads (encode_quads (a ∷ b ∷ [])) ≡ some (a ∷ b ∷ [])
unfolding encode_quads decode_quads
decode_quads_two a b ha hb = ground (
  arith,
  sextet_of-sextet (a / 4) (omega arith),
  sextet_of-sextet (a % 4 * 16 + b / 16) (omega arith),
  sextet_of-sextet (b % 16 * 4) (omega arith),
  sextet_plain (b % 16 * 4) (omega arith),
)

decode_quads_three :
    (a b c : ℕ) (r : Bytes)
    → a < 256
    → b < 256
    → c < 256
    → decode_quads (encode_quads r) ≡ some r
    → decode_quads (encode_quads (a ∷ b ∷ c ∷ r)) ≡ some (a ∷ b ∷ c ∷ r)
unfolding encode_quads decode_quads
decode_quads_three a b c r ha hb hc ih = ground (
  arith,
  sextet_of-sextet (a / 4) (omega arith),
  sextet_of-sextet (a % 4 * 16 + b / 16) (omega arith),
  sextet_of-sextet (b % 16 * 4 + c / 64) (omega arith),
  sextet_of-sextet (c % 64) (omega arith),
  sextet_plain (c % 64) (omega arith),
)

decode_quads-encode_quads : (s : Bytes) → IsByteList s → decode_quads (encode_quads s) ≡ some s
unfolding decode_quads encode_quads
decode_quads-encode_quads [] h = refl
decode_quads-encode_quads (a ∷ []) h = decode_quads_one a h.0
decode_quads-encode_quads (a ∷ b ∷ []) h = decode_quads_two a b h.0 h.1.0
decode_quads-encode_quads (a ∷ b ∷ c ∷ r) h =
    decode_quads_three a b c r h.0 h.1.0 h.1.1.0 (decode_quads-encode_quads r h.1.1.1)

drop_line_ends-encode_quads :
    (s : Bytes) → IsByteList s → drop_line_ends (encode_quads s) ≡ encode_quads s
unfolding drop_line_ends encode_quads
drop_line_ends-encode_quads [] h = refl
drop_line_ends-encode_quads (a ∷ []) h =
    ground (arith, sextet_plain (a / 4) (omega arith), sextet_plain (a % 4 * 16) (omega arith))
drop_line_ends-encode_quads (a ∷ b ∷ []) h = ground (
  arith,
  sextet_plain (a / 4) (omega arith),
  sextet_plain (a % 4 * 16 + b / 16) (omega arith),
  sextet_plain (b % 16 * 4) (omega arith),
)
drop_line_ends-encode_quads (a ∷ b ∷ c ∷ r) h = ground (
  arith,
  sextet_plain (a / 4) (omega arith),
  sextet_plain (a % 4 * 16 + b / 16) (omega arith),
  sextet_plain (b % 16 * 4 + c / 64) (omega arith),
  sextet_plain (c % 64) (omega arith),
  drop_line_ends-encode_quads r h.1.1.1,
)

-- DecodeString undoes EncodeToString.
pub decode_base64-encode_base64 :
    (s : Bytes) → IsByteList s → decode_base64 (encode_base64 s) ≡ some s
unfolding decode_base64 encode_base64
decode_base64-encode_base64 s h =
    ap decode_quads (drop_line_ends-encode_quads s h) ∙ decode_quads-encode_quads s h
