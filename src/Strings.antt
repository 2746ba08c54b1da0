-- ===== src/Strings.antt =====
-- The functions of Go's strings, fmt, encoding/hex and encoding/base64 packages that the program
-- uses, on bytes. Letters, digits and spaces are those of ASCII.
pub mod Trim
pub mod Hex
pub mod Decimal
pub mod Base64
pub mod HostPort
pub mod Split
pub mod Suffix
use secure_network.Prelude.{
  ℕ, ◌+◌, ◌-◌, Bool, true, false, ◌&&◌, ◌||◌, List, [], ◌∷◌, Bytes, eqb, leb, ◌==◌, length, drop,
  if◌then◌else◌,
}

unfoldable pub to_lower : Bytes → Bytes
to_lower [] = []
to_lower (c ∷ s) = (if leb b'A' c && leb c b'Z' then c + 32 else c) ∷ to_lower s

abbrev pub is_space : ℕ → Bool
is_space c = (leb 9 c && leb c 13) || eqb c 32

abbrev pub is_empty : Bytes → Bool
is_empty [] = true
is_empty (c ∷ s) = false

trim_left : Bytes → Bytes
trim_left [] = []
trim_left (c ∷ s) = let rest = trim_left s in if is_space c then rest else c ∷ s

trim_right : Bytes → Bytes
trim_right [] = []
trim_right (c ∷ s) = let rest = trim_right s in if is_empty rest && is_space c then [] else c ∷ rest

-- strings.TrimSpace
unfoldable pub trim_space : Bytes → Bytes
unfolding trim_left trim_right
trim_space s = trim_right (trim_left s)

-- strings.HasPrefix s t
unfoldable pub has_prefix : Bytes → Bytes → Bool
has_prefix s [] = true
has_prefix [] (d ∷ t) = false
has_prefix (c ∷ s) (d ∷ t) = eqb c d && has_prefix s t

-- strings.HasSuffix s t
unfoldable pub has_suffix : Bytes → Bytes → Bool
has_suffix s t = leb (length t) (length s) && drop (length s - length t) s == t

abbrev prepend_first : ℕ → List Bytes → List Bytes
prepend_first d [] = (d ∷ []) ∷ []
prepend_first d (p ∷ ps) = (d ∷ p) ∷ ps

-- strings.Split at a byte.
unfoldable pub split : ℕ → Bytes → List Bytes
split c [] = [] ∷ []
split c (d ∷ s) = let rest = split c s in if eqb d c then [] ∷ rest else prepend_first d rest
