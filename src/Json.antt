-- ===== src/Json.antt =====
-- encoding/json, as far as the program relies on it: values, how Unmarshal fills the fields of a
-- struct from the members of an object, and how Marshal leaves out an empty field. Only the syntax
-- of a document, and of a time in it, enters through an interface.

pub mod Sample
use secure_network.Prelude.{
  ℕ, ◌<◌, ◌≡◌, Bool, true, false, ◌&&◌, List, [], ◌∷◌, Option, none, some, Bytes, All, ◌==◌, ltb,
  leb, ◌^◌, ◌-◌, ◌%◌, if◌then◌else◌,
}
use secure_network.Strings.{to_lower, is_empty}
use secure_network.Strings.Base64.{decode_base64}

mutual
  pub data Json : Type 0 where
    null : Json
    bool : Bool → Json
    -- An integer literal: whether it has a sign, and its digits' value.
    int : Bool → ℕ → Json
    -- Any other number.
    real : Bytes → Json
    str : Bytes → Json
    arr : Elems → Json
    obj : Members → Json

  pub data Elems : Type 0 where
    nil : Elems
    cons : Json → Elems → Elems

  pub data Members : Type 0 where
    end : Members
    member : Bytes → Json → Members → Members

abbrev pub IsAscii : Bytes → Type 0
IsAscii = All (λ c. c < 128)

-- All texts of the members are ASCII, and no value is a list or an object.
abbrev pub IsPlainValue : Json → Type 0
IsPlainValue (str s) = IsAscii s
IsPlainValue (arr es) = ⊥
IsPlainValue (obj ms) = ⊥
IsPlainValue (real s) = ⊥
IsPlainValue _ = Unit

abbrev pub IsPlain : Members → Type 0
IsPlain end = Unit
IsPlain (member k v ms) = IsAscii k × IsPlainValue v × IsPlain ms

-- The syntax: printing and parsing a document, a time.Time (RFC 3339) within one, and the range of a number.
pub record JsonText : Type 0 where
  pub print : Json → Bytes
  pub parse : Bytes → Option Json
  pub print_time : ℕ → Bytes
  pub parse_time : Bytes → Option ℕ
  -- Whether strconv.ParseFloat takes the text of a number that is no integer.
  pub is_float : Bytes → Bool

-- What it documents: an object of plain values is read back as it was, and so is a time; the text of
-- an object with a member begins with a brace and has more than four bytes.
pub record IsJsonText (j : JsonText) : Type 0 where
  pub parse-print : (ms : Members) → IsPlain ms → j.parse (j.print (obj ms)) ≡ some (obj ms)
  pub print-member :
      (k : Bytes) (v : Json) (ms : Members)
      → (a b c : ℕ) × (t : Bytes) × (j.print (obj (member k v ms)) ≡ b'{' ∷ a ∷ b ∷ c ∷ t)
  pub parse_time-print_time : (t : ℕ) → j.parse_time (j.print_time t) ≡ some t
  pub print_time-IsAscii : (t : ℕ) → IsAscii (j.print_time t)

-- Whether every number of a value fits a float64, as Unmarshal into an interface demands. An integer
-- does that is rounded to less than 2^1024.
mutual
  pub fits_float : JsonText → Json → Bool
  fits_float j (int negative n) = ltb n (2 ^ 1024 - 2 ^ 970)
  fits_float j (real t) = j.is_float t
  fits_float j (arr es) = elems_fit j es
  fits_float j (obj ms) = members_fit j ms
  fits_float j _ = true

  pub elems_fit : JsonText → Elems → Bool
  elems_fit j nil = true
  elems_fit j (cons v es) = fits_float j v && elems_fit j es

  pub members_fit : JsonText → Members → Bool
  members_fit j end = true
  members_fit j (member k v ms) = fits_float j v && members_fit j ms

infixl 5 ◌>>=◌
abbrev pub ◌>>=◌ {ℓ κ} : {A : Type ℓ} {B : Type κ} → Option A → (A → Option B) → Option B
none >>= f = none
some a >>= f = f a

-- The values of the members whose name is `name`, whatever the letters' case.
unfoldable pub values : Bytes → Members → List Json
values name end = []
values name (member k v ms) =
    let rest = values name ms in if to_lower k == name then v ∷ rest else rest

-- Each such member sets the field in turn; a value of another type is an error.
unfoldable pub assign : {A : Type 0} → (A → Json → Option A) → Option A → List Json → Option A
assign set none vs = none
assign set (some a) [] = some a
assign set (some a) (v ∷ vs) = assign set (set a v) vs

-- `null` leaves a field as it is, but makes a slice nil.
abbrev pub set_string : Bytes → Json → Option Bytes
set_string a null = some a
set_string a (str s) = some s
set_string a _ = none

abbrev pub set_bytes : Bytes → Json → Option Bytes
set_bytes a null = some []
set_bytes a (str s) = decode_base64 s
set_bytes a _ = none

abbrev pub set_bool : Bool → Json → Option Bool
set_bool a null = some a
set_bool a (bool b) = some b
set_bool a _ = none

abbrev pub set_uint64 : ℕ → Json → Option ℕ
set_uint64 a null = some a
set_uint64 a (int false n) = if ltb n (2 ^ 64) then some n else none
set_uint64 a _ = none

-- An int64, as its 64-bit pattern.
abbrev pub set_int64 : ℕ → Json → Option ℕ
set_int64 a null = some a
set_int64 a (int false n) = if ltb n (2 ^ 63) then some n else none
set_int64 a (int true n) = if leb n (2 ^ 63) then some ((2 ^ 64 - n) % 2 ^ 64) else none
set_int64 a _ = none

abbrev pub set_time : JsonText → ℕ → Json → Option ℕ
set_time j a null = some a
set_time j a (str s) = j.parse_time s
set_time j a _ = none

abbrev pub field : {A : Type 0} → (A → Json → Option A) → A → Bytes → Members → Option A
field set zero_value name ms = assign set (some zero_value) (values name ms)

abbrev members_of : Json → Option Members
members_of null = some end
members_of (obj ms) = some ms
members_of _ = none

-- The document that a struct is filled from: `null` fills nothing.
unfoldable pub document : JsonText → Bytes → Option Members
document j s = do v ← j.parse s; members_of v

-- `omitempty`
abbrev pub omit_empty : Bytes → Bytes → Members → Members
omit_empty name s ms = if is_empty s then ms else member name (str s) ms
