-- ===== src/Mesh/Sample.antt =====
-- A transport that keeps the promises of IsWriter and IsChannel: it shows that they can be kept, and the tests
-- run on it.
use secure_network.Prelude.{
  ℕ, ap, sym, ◌∙◌, drop, length, ◌+◌, ◌≡◌, refl, ◌++◌, [], Option, none, some, Bytes, text, arith,
}
use secure_network.Framing.Laws.{IsWriter}
use secure_network.Platform.{Transport}
use secure_network.Mesh.Delivery.{IsChannel}

-- A tag of 16 bytes before the text.
abbrev pub tag : Bytes
tag = text "0123456789abcdef"

abbrev pub sealed_wire : Transport
sealed_wire = record {
  Stream = Bytes;
  Fault = Unit {0};
  write = λ w p. (w ++ p, none);
  Cipher = ℕ;
  encrypt = λ c p. (some (tag ++ p), c + 1);
  decrypt = λ c p. (some (drop 16 p), c + 1);
}

abbrev text_of : Option Bytes → Bytes
text_of none = []
text_of (some p) = p

pub sealed_wire-IsWriter : IsWriter sealed_wire.write (λ w. w)
sealed_wire-IsWriter = record { whole = λ w p e. refl }

pub sealed_wire-IsChannel : IsChannel sealed_wire (λ a b. a ≡ b)
sealed_wire-IsChannel = record {
  opens = λ a a' b p enc fit seal. (
    b + 1,
    ap (λ (o : Option Bytes × ℕ). (some (drop 16 (text_of o.0)), b + 1)) (sym seal),
    sym (ap (λ (o : Option Bytes × ℕ). o.1) seal) ∙ ap (λ (n : ℕ). n + 1) fit,
  );
  seals = λ a a' p enc seal.
      ap (λ (o : Option Bytes × ℕ). length (text_of o.0)) (sym seal) ∙ omega arith;
}
