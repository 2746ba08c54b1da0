-- ===== src/Tls/Tests.antt =====
-- The theorem on tls_acme.go at a concrete configuration.
use secure_network.Prelude.{◌≡◌, refl, false, [], some, text}
use secure_network.Strings.{trim_space}
use secure_network.Tls.{AcmeConfig, Issuer, TlsBundle, enabled, resolve_tls}
use secure_network.Tls.HostPolicy.{HasPolicy, resolve_tls-HasPolicy}

abbrev ca : Issuer
ca = record {
  Certificate = Unit {0};
  issue = λ t. some tt;
  manager_config = λ m. record { certificates = []; min_version = 0; next_protos = [] };
}

abbrev with_email : AcmeConfig
with_email = record {
  email = text " a@b.c";
  cache_dir = [];
  domain = text "A.com ";
  staging = false;
}

resolve_tls-HasPolicy_example :
    (b : TlsBundle ca.Certificate) × (resolve_tls ca with_email ≡ some b)
    × HasPolicy ca with_email b
unfolding trim_space enabled
resolve_tls-HasPolicy_example = resolve_tls-HasPolicy ca with_email refl
