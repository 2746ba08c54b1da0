-- ===== src/Dbsc/Scope.antt =====
-- dbscIncludeSiteAllowed of dbsc.go.
use secure_network.Prelude.{
  ◌≡◌, ◌≢◌, ◌↔◌, refl, subst, sym, true, false, List, [], ◌∷◌, ◌++◌, Bytes, ◌==◌, eq_iff, arith,
  All, Bool-cases, inl, inr,
}
use secure_network.Strings.{to_lower, trim_space, split}
use secure_network.Strings.Split.{IsWithout, split-single, split-append, split-pair_inverse}
use secure_network.Http.{Urls}
use secure_network.Dbsc.{
  apex_domains, is_one_of, are_two_labels, include_site_of, dbsc_include_site_allowed,
}

-- One label of a domain name.
abbrev pub IsLabel : Bytes → Type 0
IsLabel a = (a ≢ []) × IsWithout b'.' a

abbrev pub IsTwoLabels : Bytes → Type 0
IsTwoLabels h = (a : Bytes) × (b : Bytes) × (h ≡ a ++ (b'.' ∷ b)) × IsLabel a × IsLabel b

is_one_of-All :
    (P : Bytes → Type 0) (s : Bytes) (ts : List Bytes) → All P ts → is_one_of s ts ≡ true → P s
unfolding is_one_of
is_one_of-All P s [] h e = absurd (ground arith)
is_one_of-All P s (t ∷ ts) (p, h) e = elim (Bool-cases (s == t)) [
  | inl same ↦ subst P (sym ((eq_iff s t).0 same)) p
  | inr other ↦ is_one_of-All P s ts h (ground arith)
]

are_two_labels-IsTwoLabels : (h : Bytes) → are_two_labels (split b'.' h) ≡ true → IsTwoLabels h
are_two_labels-IsTwoLabels h e = go (split b'.' h) refl e
  where
    go : (parts : List Bytes) → split b'.' h ≡ parts → are_two_labels parts ≡ true → IsTwoLabels h
    go [] cut e = absurd (ground arith)
    go (a ∷ []) cut e = absurd (ground arith)
    go (a ∷ b ∷ []) cut e =
        let (same, left, right) = split-pair_inverse b'.' h a b cut in
        (a, b, same, (ground arith, left), (ground arith, right))
    go (a ∷ b ∷ c ∷ parts) cut e = absurd (ground arith)

IsTwoLabels-are_two_labels : (h : Bytes) → IsTwoLabels h → are_two_labels (split b'.' h) ≡ true
IsTwoLabels-are_two_labels h (a, b, same, (full, left), (filled, right)) =
    ground (arith, split-append b'.' a b left, split-single b'.' b right)

apex_domains-are_two_labels : All (λ h. are_two_labels (split b'.' h) ≡ true) apex_domains
unfolding split
apex_domains-are_two_labels =
    (refl, (refl, (refl, (refl, (refl, (refl, (refl, (refl, (refl, (refl, tt))))))))))

include_site_of-IsTwoLabels :
    (urls : Urls) (h : Bytes) → urls.is_ip h ≡ false → IsTwoLabels h → include_site_of urls h ≡ true
unfolding include_site_of
include_site_of-IsTwoLabels urls [] no_ip labels = absurd (ground arith)
include_site_of-IsTwoLabels urls (c ∷ h) no_ip labels =
    ground (arith, IsTwoLabels-are_two_labels (c ∷ h) labels)

-- With h the host in lower case and without the spaces around it: dbscIncludeSiteAllowed returns
-- true exactly when h is no IP address and consists of two labels, that is, of two texts that are
-- not empty and have no dot, with a dot between them. The table of known domains adds none.
pub dbsc_include_site_allowed_iff :
    (urls : Urls) (host : Bytes)
    → let h = to_lower (trim_space host) in
      (dbsc_include_site_allowed urls host ≡ true) ↔ ((urls.is_ip h ≡ false) × IsTwoLabels h)
unfolding dbsc_include_site_allowed include_site_of
dbsc_include_site_allowed_iff urls host =
    let h = to_lower (trim_space host) in
    let known =
      is_one_of-All (λ h. are_two_labels (split b'.' h) ≡ true) h apex_domains
        apex_domains-are_two_labels in
    (
      λ e. (ground arith, are_two_labels-IsTwoLabels h (ground (arith, known))),
      λ (no_ip, labels). include_site_of-IsTwoLabels urls h no_ip labels,
    )
