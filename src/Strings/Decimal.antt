-- ===== src/Strings/Decimal.antt =====
-- %d of package fmt: printing a number, and Sscanf of an int64 (as its 64-bit pattern).
use secure_network.Prelude.{
  ℕ, zero, suc, ◌+◌, ◌-◌, ◌*◌, ◌/◌, ◌%◌, ◌^◌, ◌<◌, ◌≡◌, refl, Bool, true, false, ◌&&◌, [], ◌∷◌,
  ◌++◌, Option, none, some, arith, Bytes, All, text, ltb, leb, eqb, if◌then◌else◌,
}
use secure_network.Strings.{is_space}

digits_from : ℕ → ℕ → Bytes
digits_from zero n = []
digits_from (suc f) n =
    let more = digits_from f (n / 10) ++ (48 + n % 10) ∷ [] in
    if ltb n 10 then (48 + n) ∷ [] else more

-- fmt.Sprintf("%d", n). There are at most n + 1 digits.
unfoldable pub decimal : ℕ → Bytes
unfolding digits_from
decimal n = digits_from (suc n) n

abbrev is_digit : ℕ → Bool
is_digit c = leb b'0' c && leb c b'9'

-- The value of the digits at the front.
scan_digits : ℕ → Bytes → ℕ
scan_digits n [] = n
scan_digits n (c ∷ s) =
    let more = scan_digits (n * 10 + (c - 48)) s in if is_digit c then more else n

abbrev starts_with_digit : Bytes → Bool
starts_with_digit [] = false
starts_with_digit (c ∷ s) = is_digit c

-- strconv.ParseInt: out of the range of an int64 is an error.
abbrev int64_of : Bool → ℕ → Option ℕ
int64_of true n = if leb n (2 ^ 63) then some ((2 ^ 64 - n) % 2 ^ 64) else none
int64_of false n = if ltb n (2 ^ 63) then some n else none

scan_unsigned : Bool → Bytes → Option ℕ
unfolding scan_digits
scan_unsigned neg s = if starts_with_digit s then int64_of neg (scan_digits 0 s) else none

-- Spaces are skipped, a newline is an error, and a sign may stand before the digits.
scan_signed : Bytes → Option ℕ
unfolding scan_unsigned
scan_signed [] = none
scan_signed (c ∷ s) =
    let skipped = scan_signed s in
    if eqb c 10
    then none
    else if is_space c
    then skipped
    else if eqb c b'-'
    then scan_unsigned true s
    else if eqb c b'+'
    then scan_unsigned false s
    else scan_unsigned false (c ∷ s)

-- fmt.Sscanf(s, "%d", &x) for an int64 x: `none` if it leaves x as it was.
unfoldable pub sscanf_int64 : Bytes → Option ℕ
unfolding scan_signed
sscanf_int64 s = scan_signed s

abbrev AreDigits : Bytes → Type 0
AreDigits = All (λ c. is_digit c ≡ true)

AreDigits-append : (s t : Bytes) → AreDigits s → AreDigits t → AreDigits (s ++ t)
AreDigits-append [] t hs ht = ht
AreDigits-append (c ∷ s) t hs ht = (hs.0, AreDigits-append s t hs.1 ht)

digits_from-AreDigits : (f n : ℕ) → AreDigits (digits_from f n)
unfolding digits_from
digits_from-AreDigits zero n = tt
digits_from-AreDigits (suc f) n = ground (
  arith,
  AreDigits-append (digits_from f (n / 10)) ((48 + n % 10) ∷ []) (digits_from-AreDigits f (n / 10)),
)

scan_digits-append :
    (n : ℕ) (s t : Bytes) → AreDigits s → scan_digits n (s ++ t) ≡ scan_digits (scan_digits n s) t
unfolding scan_digits
scan_digits-append n [] t h = refl
scan_digits-append n (c ∷ s) t h = ground (arith, scan_digits-append (n * 10 + (c - 48)) s t h.1)

scan_digits-digits_from : (f n : ℕ) → n < f → scan_digits 0 (digits_from f n) ≡ n
unfolding scan_digits digits_from
scan_digits-digits_from zero n h = absurd (omega arith)
scan_digits-digits_from (suc f) n h = ground (
  arith,
  scan_digits-append 0 (digits_from f (n / 10)) ((48 + n % 10) ∷ [])
      (digits_from-AreDigits f (n / 10)),
  scan_digits-digits_from f (n / 10),
)

append-starts_with_digit :
    (s t : Bytes) → AreDigits s → starts_with_digit t ≡ true → starts_with_digit (s ++ t) ≡ true
append-starts_with_digit [] t hs ht = ht
append-starts_with_digit (c ∷ s) t hs ht = hs.0

decimal-starts_with_digit : (f n : ℕ) → n < f → starts_with_digit (digits_from f n) ≡ true
unfolding digits_from
decimal-starts_with_digit zero n h = absurd (omega arith)
decimal-starts_with_digit (suc f) n h = ground (
  arith,
  append-starts_with_digit (digits_from f (n / 10)) ((48 + n % 10) ∷ [])
      (digits_from-AreDigits f (n / 10)),
)

scan_signed_digit :
    (s : Bytes) → starts_with_digit s ≡ true → scan_signed s ≡ int64_of false (scan_digits 0 s)
unfolding scan_signed scan_unsigned
scan_signed_digit [] h = ground arith
scan_signed_digit (c ∷ s) h = ground arith

-- What %d prints of a number below 2^63, Sscanf reads back.
pub sscanf_int64-decimal : (n : ℕ) → n < 2 ^ 63 → sscanf_int64 (decimal n) ≡ some n
unfolding sscanf_int64 decimal
sscanf_int64-decimal n h = ground (
  arith,
  scan_signed_digit (digits_from (suc n) n) (decimal-starts_with_digit (suc n) n (omega arith)),
  scan_digits-digits_from (suc n) n,
)

decimal_test : decimal 1733 ≡ text "1733"
unfolding decimal
decimal_test = refl

sscanf_int64_test :
    (sscanf_int64 (text " -9223372036854775808x") ≡ some (2 ^ 63))
    × (sscanf_int64 (text "9223372036854775808") ≡ none)
    × (sscanf_int64 (text "+17 4") ≡ some 17)
unfolding sscanf_int64
sscanf_int64_test = (refl, refl, refl)
