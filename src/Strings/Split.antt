-- ===== src/Strings/Split.antt =====
-- Where strings.Split gives one or two parts.
use secure_network.Prelude.{
  ℕ, ◌≡◌, ◌≢◌, refl, List, [], ◌∷◌, ◌++◌, Bytes, eqb, arith, All, Bool-cases, inl, inr,
}
use secure_network.Strings.{split}

abbrev pub IsWithout : ℕ → Bytes → Type 0
IsWithout c s = All (λ d. d ≢ c) s

pub split-single : (c : ℕ) (s : Bytes) → IsWithout c s → split c s ≡ s ∷ []
unfolding split
split-single c [] h = refl
split-single c (d ∷ s) h = ground (arith, split-single c s h.1)

pub split-append : (c : ℕ) (a b : Bytes) → IsWithout c a → split c (a ++ (c ∷ b)) ≡ a ∷ split c b
unfolding split
split-append c [] b h = ground arith
split-append c (d ∷ a) b h = ground (arith, split-append c a b h.1)

split-cons : (c : ℕ) (s : Bytes) → (p : Bytes) × (ps : List Bytes) × (split c s ≡ p ∷ ps)
unfolding split
split-cons c [] = ([], [], refl)
split-cons c (d ∷ s) =
    let (p, ps, e) = split-cons c s in
    elim (Bool-cases (eqb d c)) [
      | inl here ↦ ([], p ∷ ps, ground arith)
      | inr there ↦ (d ∷ p, ps, ground arith)
    ]

pub split-single_inverse : (c : ℕ) (s p : Bytes) → split c s ≡ p ∷ [] → (s ≡ p) × IsWithout c p
unfolding split
split-single_inverse c [] p e = ground arith
split-single_inverse c (d ∷ s) p e =
    let (q, qs, cut) = split-cons c s in
    elim (Bool-cases (eqb d c)) [
      | inl here ↦ absurd (ground arith)
      | inr there ↦ let (same, without) = split-single_inverse c s q (ground arith) in ground arith
    ]

pub split-pair_inverse :
    (c : ℕ) (s p q : Bytes)
    → split c s ≡ p ∷ q ∷ []
    → (s ≡ p ++ (c ∷ q)) × IsWithout c p × IsWithout c q
unfolding split
split-pair_inverse c [] p q e = absurd (ground arith)
split-pair_inverse c (d ∷ s) p q e =
    let (r, rs, cut) = split-cons c s in
    elim (Bool-cases (eqb d c)) [
      | inl here ↦ let (same, without) = split-single_inverse c s q (ground arith) in ground arith
      | inr there ↦
          let (same, left, right) = split-pair_inverse c s r q (ground arith) in ground arith
    ]
