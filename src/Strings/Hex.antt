-- ===== src/Strings/Hex.antt =====
-- encoding/hex: two digits for a byte.
use secure_network.Prelude.{
  ℕ, ◌+◌, ◌/◌, ◌%◌, ◌<◌, ◌≡◌, refl, [], ◌∷◌, arith, Bytes, All, ltb, if◌then◌else◌,
}

abbrev hex_digit : ℕ → ℕ
hex_digit n = if ltb n 10 then 48 + n else 87 + n

-- hex.EncodeToString
unfoldable pub encode_hex : Bytes → Bytes
encode_hex [] = []
encode_hex (b ∷ bs) = hex_digit (b / 16) ∷ hex_digit (b % 16) ∷ encode_hex bs

abbrev pub IsByteList : Bytes → Type 0
IsByteList = All (λ b. b < 256)

pub encode_hex_injective :
    (s t : Bytes) → IsByteList s → IsByteList t → encode_hex s ≡ encode_hex t → s ≡ t
unfolding encode_hex
encode_hex_injective [] [] hs ht e = refl
encode_hex_injective [] (b ∷ t) hs ht e = ground arith
encode_hex_injective (a ∷ s) [] hs ht e = ground arith
encode_hex_injective (a ∷ s) (b ∷ t) hs ht e = ground (arith, encode_hex_injective s t hs.1 ht.1)
