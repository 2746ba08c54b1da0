-- ===== src/Tls/HostPolicy.antt =====
-- Which hosts resolveTLS of tls_acme.go lets autocert ask a certificate for.
use secure_network.Prelude.{
  ◌≡◌, ◌↔◌, ◌⊎◌, inl, inr, refl, ap, sym, subst, ◌∙◌, true, false, [], ◌∷◌, ◌++◌, some, Bytes, text,
  ◌==◌, eq_iff, arith, All, Bool-cases, Option-cases, is_some,
}
use secure_network.Strings.{is_empty, to_lower, trim_space, has_suffix}
use secure_network.Strings.Trim.{IsNormal, IsNormal-append, to_lower-trim_space-IsNormal}
use secure_network.Strings.Suffix.{has_suffix_iff}
use secure_network.Http.{or_text}
use secure_network.Tls.{
  AcmeConfig, Manager, Issuer, TlsBundle, enabled, is_under, acme_tls_config,
  generate_ephemeral_tls, resolve_tls,
}

-- The domain or a host below it.
abbrev pub IsUnder : Bytes → Bytes → Type 0
IsUnder domain h = (h ≡ domain) ⊎ ((l : Bytes) × (h ≡ l ++ (text "." ++ domain)))

is_under_iff :
    (domain host : Bytes)
    → (is_under domain host ≡ true) ↔ IsUnder domain (to_lower (trim_space host))
unfolding is_under
is_under_iff domain host =
    let h = to_lower (trim_space host) in
    let below = has_suffix_iff h (text "." ++ domain) in
    let same = eq_iff h domain in
    (
      λ e. elim (Bool-cases (h == domain)) [
        | inl equal ↦ inl (same.0 equal)
        | inr other ↦ inr (below.0 (ground arith))
      ],
      λ u. elim u [
        | inl equal ↦ ground (arith, same.1 equal)
        | inr longer ↦
            let suffix : has_suffix h (text "." ++ domain) ≡ true = below.1 longer in
            ground (arith, Bool-cases (h == domain))
      ],
    )

-- A host in lower case without spaces around it is tested as it is.
is_under_normal :
    (domain host : Bytes) → IsNormal host → IsUnder domain host → is_under domain host ≡ true
is_under_normal domain host (lower, trimmed) under =
    (is_under_iff domain host).1 (subst (IsUnder domain) (sym (ap to_lower trimmed ∙ lower)) under)

-- The domain that is used.
abbrev pub acme_domain : AcmeConfig → Bytes
acme_domain a = or_text (to_lower (trim_space a.domain)) (text "0trust.cloud")

default_domain-IsNormal : (d : Bytes) → IsNormal d → IsNormal (or_text d (text "0trust.cloud"))
unfolding to_lower trim_space
default_domain-IsNormal [] h = (refl, refl)
default_domain-IsNormal (c ∷ d) h = h

default_domain_full : (d : Bytes) → is_empty (or_text d (text "0trust.cloud")) ≡ false
default_domain_full [] = refl
default_domain_full (c ∷ d) = refl

acme_domain-IsNormal : (a : AcmeConfig) → IsNormal (acme_domain a)
acme_domain-IsNormal a = default_domain-IsNormal _ (to_lower-trim_space-IsNormal a.domain)

module _ (ca : Issuer) (a : AcmeConfig) where
  -- What is shown of the bundle.
  pub record HasPolicy (b : TlsBundle ca.Certificate) : Type 0 where
    pub m : Manager
    pub managed : b.manager ≡ some m
    pub admits :
        (host : Bytes)
        → (m.host_policy host ≡ true) ↔ IsUnder (acme_domain a) (to_lower (trim_space host))
    pub prefetches : All (λ host. m.host_policy host ≡ true) b.prefetched

  -- With an e-mail address that is not blank resolveTLS returns a bundle with a manager. Its host policy
  -- admits exactly the hosts that are, in lower case and without spaces around them, the domain or end in
  -- a dot and the domain, where the domain is the configured one in lower case without spaces around it,
  -- or 0trust.cloud where that is empty. It admits every host whose certificate is prefetched.
  pub resolve_tls-HasPolicy :
      enabled a ≡ true → (b : TlsBundle ca.Certificate) × (resolve_tls ca a ≡ some b) × HasPolicy b
  unfolding resolve_tls acme_tls_config to_lower
  resolve_tls-HasPolicy on =
      let d = acme_domain a in
      let normal : IsNormal d = acme_domain-IsNormal a in
      let tunnel : IsNormal (text "tunnel." ++ d) =
        IsNormal-append b't' (text "unnel.") d refl refl (default_domain_full _) normal in
      (
        acme_tls_config ca a d,
        ground arith,
        record {
          m = _;
          managed = refl;
          admits = is_under_iff d;
          prefetches = (
            is_under_normal d d normal (inl refl),
            (is_under_normal d (text "tunnel." ++ d) tunnel (inr (text "tunnel", refl)), tt),
          );
        },
      )

-- Only a configuration with an e-mail address gives a manager.
pub resolve_tls-manager :
    (ca : Issuer) (a : AcmeConfig) (b : TlsBundle ca.Certificate)
    → resolve_tls ca a ≡ some b
    → is_some b.manager ≡ enabled a
unfolding resolve_tls acme_tls_config
resolve_tls-manager ca a b e =
    elim (Option-cases (generate_ephemeral_tls ca (to_lower (trim_space a.domain)))) [
      | inl failed ↦ ground arith
      | inr (config, issued) ↦ ground arith
    ]
