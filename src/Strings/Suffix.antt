-- ===== src/Strings/Suffix.antt =====
-- What strings.HasSuffix tests.
use secure_network.Prelude.{
  ◌-◌, ◌≡◌, ◌↔◌, ap, ap₂, sym, ◌∙◌, true, ◌++◌, Bytes, eq_iff, length, take, drop, arith,
  length-append, drop-append, take-append-drop,
}
use secure_network.Strings.{has_suffix}

pub has_suffix_iff : (s t : Bytes) → (has_suffix s t ≡ true) ↔ ((l : Bytes) × (s ≡ l ++ t))
unfolding has_suffix
has_suffix_iff s t = (
  λ e.
      let rest : drop (length s - length t) s ≡ t = (eq_iff _ t).0 (ground arith) in
      (
        take (length s - length t) s,
        sym (
            ap (λ r. take (length s - length t) s ++ r) (sym rest)
            ∙ take-append-drop (length s - length t) s),
      ),
  λ (l, e).
      let size : length s - length t ≡ length l = omega (arith, ap length e ∙ length-append l t) in
      let cut : drop (length s - length t) s ≡ t = ap₂ (λ n u. drop n u) size e ∙ drop-append l t in
      ground
        (arith, (eq_iff (drop (length s - length t) s) t).1 cut, ap length e ∙ length-append l t),
)
