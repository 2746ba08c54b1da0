-- ===== src/Json/Sample.antt =====
-- A simple syntax that keeps the promises of IsJsonText: it shows that they can be kept, and the tests
-- run on it. A text is written behind its length.
use secure_network.Prelude.{
  ℕ, zero, suc, ◌<◌, ◌≡◌, refl, ap, true, false, [], ◌∷◌, ◌++◌, Option, none, some, arith, Bytes,
  length, take, drop, eqb, take-append, drop-append, length-append, if◌then◌else◌,
}
use secure_network.Json.{
  Json, null, bool, int, real, str, arr, obj, Members, end, member, JsonText, IsJsonText, IsAscii,
  IsPlain, IsPlainValue, ◌>>=◌,
}

write_value : Json → Bytes
write_value null = 0 ∷ []
write_value (bool false) = 1 ∷ []
write_value (bool true) = 2 ∷ []
write_value (int false n) = 3 ∷ n ∷ []
write_value (int true n) = 4 ∷ n ∷ []
write_value (str s) = 5 ∷ length s ∷ s
write_value v = []

write_members : Members → Bytes
write_members end = []
write_members (member k v ms) = length k ∷ (k ++ (write_value v ++ write_members ms))

sized : ℕ → Bytes → Option (Json × Bytes)
sized tag [] = none
sized tag (n ∷ r) =
    if eqb tag 3
    then some (int false n, r)
    else if eqb tag 4
    then some (int true n, r)
    else if eqb tag 5
    then some (str (take n r), drop n r)
    else none

read_value : Bytes → Option (Json × Bytes)
unfolding sized
read_value [] = none
read_value (tag ∷ r) =
    if eqb tag 0
    then some (null, r)
    else if eqb tag 1
    then some (bool false, r)
    else if eqb tag 2
    then some (bool true, r)
    else sized tag r

read_members : ℕ → Bytes → Option Members
read_members zero s = none
read_members (suc f) [] = some end
read_members (suc f) (n ∷ r) = do
  (v, rest) ← read_value (drop n r)
  ms ← read_members f rest
  some (member (take n r) v ms)

read_value-write_value :
    (v : Json) (r : Bytes) → IsPlainValue v → read_value (write_value v ++ r) ≡ some (v, r)
unfolding read_value write_value
read_value-write_value null r h = refl
read_value-write_value (bool false) r h = refl
read_value-write_value (bool true) r h = refl
read_value-write_value (int false n) r h = refl
read_value-write_value (int true n) r h = refl
read_value-write_value (str s) r h = ground (arith, take-append s r, drop-append s r)
read_value-write_value (real s) r h = absurd h
read_value-write_value (arr es) r h = absurd h
read_value-write_value (obj ms) r h = absurd h

read_members-write_members :
    (f : ℕ) (ms : Members)
    → length (write_members ms) < f
    → IsPlain ms
    → read_members f (write_members ms) ≡ some ms
unfolding read_members write_members
read_members-write_members zero ms h plain = absurd (omega arith)
read_members-write_members (suc f) end h plain = refl
read_members-write_members (suc f) (member k v ms) h (hk, hv, hms) =
    let rest = write_value v ++ write_members ms in
    ground (
      arith,
      take-append k rest,
      drop-append k rest,
      read_value-write_value v (write_members ms) hv,
      length-append k rest,
      length-append (write_value v) (write_members ms),
      read_members-write_members f ms
          (omega (arith, length-append k rest, length-append (write_value v) (write_members ms)))
          hms,
    )

unfoldable pub sample_print : Json → Bytes
unfolding write_members write_value
sample_print (obj ms) = b'{' ∷ 0 ∷ 0 ∷ 0 ∷ write_members ms
sample_print v = []

unfoldable pub sample_parse : Bytes → Option Json
unfolding read_members read_value
sample_parse (a ∷ b ∷ c ∷ d ∷ s) = do ms ← read_members (suc (length s)) s; some (obj ms)
sample_parse s = none

unfoldable pub unary : ℕ → Bytes
unary zero = []
unary (suc n) = b'1' ∷ unary n

unfoldable pub sample_time : Bytes → Option ℕ
sample_time s = some (length s)

unary-IsAscii : (n : ℕ) → IsAscii (unary n)
unfolding unary
unary-IsAscii zero = tt
unary-IsAscii (suc n) = (omega arith, unary-IsAscii n)

length-unary : (n : ℕ) → length (unary n) ≡ n
unfolding unary
length-unary zero = refl
length-unary (suc n) = ap suc (length-unary n)

abbrev pub sample : JsonText
sample = record {
  print = sample_print;
  parse = sample_parse;
  print_time = unary;
  parse_time = sample_time;
  is_float = λ t. true;
}

pub sample-IsJsonText : IsJsonText sample
unfolding sample_print sample_parse sample_time
sample-IsJsonText = record {
  parse-print = λ ms plain.
      rw (read_members-write_members (suc (length (write_members ms))) ms (omega arith) plain);
  print-member = λ k v ms. (0, 0, 0, write_members (member k v ms), refl);
  parse_time-print_time = λ t. ap some (length-unary t);
  print_time-IsAscii = unary-IsAscii;
}
