-- ===== src/Strings/Trim.antt =====
-- strings.TrimSpace and strings.ToLower.
use secure_network.Prelude.{
  ℕ, ◌≡◌, refl, ap, ap₂, sym, false, ◌∙◌, true, false, [], ◌∷◌, ◌++◌, arith, Bytes, All,
}
use secure_network.Strings.{to_lower, is_space, is_empty, trim_left, trim_right, trim_space}

abbrev pub IsBlank : Bytes → Type 0
IsBlank = All (λ c. is_space c ≡ true)

trim_left-append : (l s : Bytes) → IsBlank l → trim_left (l ++ s) ≡ trim_left s
unfolding trim_left
trim_left-append [] s h = refl
trim_left-append (c ∷ l) s (here, h) = ground (arith, trim_left-append l s h)

trim_right_blank : (r : Bytes) → IsBlank r → trim_right r ≡ []
unfolding trim_right
trim_right_blank [] h = refl
trim_right_blank (c ∷ r) (here, h) = ground (arith, trim_right_blank r h)

trim_right-append : (s r : Bytes) → IsBlank r → trim_right (s ++ r) ≡ trim_right s
unfolding trim_right
trim_right-append [] r h = trim_right_blank r h
trim_right-append (c ∷ s) r h = ground (arith, trim_right-append s r h)

trim_space-append :
    (l s r : Bytes) (c : ℕ)
    → IsBlank l
    → IsBlank r
    → is_space c ≡ false
    → trim_space (c ∷ s) ≡ c ∷ s
    → trim_space (l ++ (c ∷ (s ++ r))) ≡ c ∷ s
unfolding trim_space
trim_space-append l s r c hl hr solid same =
    ap trim_right (trim_left-append l (c ∷ (s ++ r)) hl ∙ solid_left (s ++ r))
    ∙ trim_right-append (c ∷ s) r hr
    ∙ ap trim_right (sym (solid_left s))
    ∙ same
  where
    solid_left : (t : Bytes) → trim_left (c ∷ t) ≡ c ∷ t
    solid_left t = ground arith

to_lower-append : (s t : Bytes) → to_lower (s ++ t) ≡ to_lower s ++ to_lower t
unfolding to_lower
to_lower-append [] t = refl
to_lower-append (c ∷ s) t = rw (to_lower-append s t)

to_lower_blank : (s : Bytes) → IsBlank s → to_lower s ≡ s
unfolding to_lower
to_lower_blank [] h = refl
to_lower_blank (c ∷ s) (here, h) = ground (arith, to_lower_blank s h)

trim_left-to_lower : (s : Bytes) → trim_left (to_lower s) ≡ to_lower (trim_left s)
unfolding trim_left to_lower
trim_left-to_lower [] = refl
trim_left-to_lower (c ∷ s) = ground (arith, trim_left-to_lower s)

is_empty-to_lower : (s : Bytes) → is_empty (to_lower s) ≡ is_empty s
unfolding to_lower
is_empty-to_lower [] = refl
is_empty-to_lower (c ∷ s) = refl

trim_right-to_lower : (s : Bytes) → trim_right (to_lower s) ≡ to_lower (trim_right s)
unfolding trim_right to_lower
trim_right-to_lower [] = refl
trim_right-to_lower (c ∷ s) =
    ground (arith, trim_right-to_lower s, is_empty-to_lower (trim_right s))

-- Letter case and the spaces around a word do not change what ToLower of TrimSpace gives.
pub to_lower-trim_space :
    (l s r : Bytes) (c : ℕ) (t : Bytes)
    → IsBlank l
    → IsBlank r
    → to_lower s ≡ c ∷ t
    → is_space c ≡ false
    → trim_space (c ∷ t) ≡ c ∷ t
    → to_lower (trim_space (l ++ (s ++ r))) ≡ c ∷ t
unfolding trim_space
to_lower-trim_space l s r c t hl hr word solid same =
    sym (trim_right-to_lower _)
    ∙ ap trim_right (sym (trim_left-to_lower _))
    ∙ ap (λ u. trim_right (trim_left u)) lowered
    ∙ trim_space-append l t r c hl hr solid same
  where
    lowered : to_lower (l ++ (s ++ r)) ≡ l ++ (c ∷ (t ++ r))
    lowered =
        to_lower-append l (s ++ r)
        ∙ ap₂ (λ u v. u ++ v) (to_lower_blank l hl)
            (to_lower-append s r ∙ ap₂ (λ u v. u ++ v) word (to_lower_blank r hr))

to_lower_idem : (s : Bytes) → to_lower (to_lower s) ≡ to_lower s
unfolding to_lower
to_lower_idem [] = refl
to_lower_idem (c ∷ s) = ground (arith, to_lower_idem s)

trim_right_idem : (s : Bytes) → trim_right (trim_right s) ≡ trim_right s
unfolding trim_right
trim_right_idem [] = refl
trim_right_idem (c ∷ s) = ground (arith, trim_right_idem s)

trim_left-trim_right-trim_left :
    (s : Bytes) → trim_left (trim_right (trim_left s)) ≡ trim_right (trim_left s)
unfolding trim_left trim_right
trim_left-trim_right-trim_left [] = refl
trim_left-trim_right-trim_left (c ∷ s) = ground (arith, trim_left-trim_right-trim_left s)

trim_space_idem : (s : Bytes) → trim_space (trim_space s) ≡ trim_space s
unfolding trim_space
trim_space_idem s = ap trim_right (trim_left-trim_right-trim_left s) ∙ trim_right_idem (trim_left s)

trim_space-to_lower : (s : Bytes) → trim_space (to_lower s) ≡ to_lower (trim_space s)
unfolding trim_space
trim_space-to_lower s = ap trim_right (trim_left-to_lower s) ∙ trim_right-to_lower (trim_left s)

-- Lower case, and no space around it.
abbrev pub IsNormal : Bytes → Type 0
IsNormal s = (to_lower s ≡ s) × (trim_space s ≡ s)

pub to_lower-trim_space-IsNormal : (s : Bytes) → IsNormal (to_lower (trim_space s))
to_lower-trim_space-IsNormal s = (
  to_lower_idem (trim_space s),
  trim_space-to_lower (trim_space s) ∙ ap to_lower (trim_space_idem s),
)

is_empty-append : (p s : Bytes) → is_empty s ≡ false → is_empty (p ++ s) ≡ false
is_empty-append [] s full = full
is_empty-append (c ∷ p) s full = refl

trim_right-append_full :
    (p s : Bytes) → is_empty s ≡ false → trim_right s ≡ s → trim_right (p ++ s) ≡ p ++ s
unfolding trim_right
trim_right-append_full [] s full same = same
trim_right-append_full (c ∷ p) s full same =
    ground (arith, is_empty-append p s full, trim_right-append_full p s full same)

pub IsNormal-append :
    (c : ℕ) (p s : Bytes)
    → is_space c ≡ false
    → to_lower (c ∷ p) ≡ c ∷ p
    → is_empty s ≡ false
    → IsNormal s
    → IsNormal (c ∷ (p ++ s))
unfolding trim_space trim_left to_lower
IsNormal-append c p s solid low full (lower, trimmed) =
    let right : trim_right s ≡ s =
      ap trim_right (sym trimmed) ∙ trim_right_idem (trim_left s) ∙ trimmed in
    let left : trim_left (c ∷ (p ++ s)) ≡ c ∷ (p ++ s) = ground arith in
    (
      to_lower-append (c ∷ p) s ∙ ap₂ (λ u v. u ++ v) low lower,
      ap trim_right left ∙ trim_right-append_full (c ∷ p) s full right,
    )
