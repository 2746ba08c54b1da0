-- ===== src/Tls.antt =====
-- tls_acme.go, and what generateEphemeralTLS of router.go puts into a certificate. Making a key and a
-- certificate, autocert and its cache are parameters.
pub mod HostPolicy
mod Tests
use secure_network.Prelude.{
  ℕ, Bool, not, ◌||◌, List, [], ◌∷◌, ◌++◌, Option, none, some, Bytes, text, ◌==◌, if◌then◌else◌,
}
use secure_network.Strings.{is_empty, to_lower, trim_space, has_suffix}
use secure_network.Http.{or_text}

pub record AcmeConfig : Type 0 where
  pub email : Bytes
  pub cache_dir : Bytes
  pub domain : Bytes
  pub staging : Bool

unfoldable pub enabled : AcmeConfig → Bool
enabled a = not (is_empty (trim_space a.email))

-- autocert.Manager: its host policy as a test, and the directory of a client that is set.
pub record Manager : Type 0 where
  pub email : Bytes
  pub cache : Bytes
  pub host_policy : Bytes → Bool
  pub directory_url : Option Bytes

-- x509.Certificate, as generateEphemeralTLS fills it: its organization, DNS names and days.
pub record Template : Type 0 where
  pub organization : Bytes
  pub dns_names : List Bytes
  pub days : ℕ

pub record TlsConfig (Certificate : Type 0) : Type 0 where
  pub certificates : List Certificate
  pub min_version : ℕ
  pub next_protos : List Bytes

-- What is called: making a certificate from a template and a serial number that no step of fails
-- (`none` is an error), and the configuration that a manager gives.
pub record Issuer : Type 1 where
  pub Certificate : Type 0
  pub issue : Template → Option Certificate
  pub manager_config : Manager → TlsConfig Certificate

-- `prefetched` are the hosts whose certificates are asked for at once.
pub record TlsBundle (Certificate : Type 0) : Type 0 where
  pub config : TlsConfig Certificate
  pub manager : Option Manager
  pub prefetched : List Bytes

unfoldable pub is_under : Bytes → Bytes → Bool
is_under domain host =
    let h = to_lower (trim_space host) in h == domain || has_suffix h (text "." ++ domain)

abbrev cache_dir_of : Bytes → Bytes
cache_dir_of dir = or_text dir (text "data/acme")

module _ (ca : Issuer) where
  abbrev self_signed : Option ca.Certificate → Option (TlsConfig ca.Certificate)
  self_signed none = none
  self_signed (some cert) = some (record {
    certificates = cert ∷ [];
    min_version = 0;
    next_protos = text "secure-overlay" ∷ text "h3" ∷ text "h2" ∷ text "http/1.1" ∷ [];
  })

  -- generateEphemeralTLS of router.go
  unfoldable pub generate_ephemeral_tls : Bytes → Option (TlsConfig ca.Certificate)
  generate_ephemeral_tls domain =
      let name = or_text domain (text "0trust.cloud") in
      self_signed (
        ca.issue (record {
          organization = text "Aura Microkernel Architecture";
          dns_names = name ∷ (text "*." ++ name) ∷ [];
          days = 365;
        }))

  unfoldable pub acme_tls_config : AcmeConfig → Bytes → TlsBundle ca.Certificate
  acme_tls_config a domain =
      let m : Manager = record {
        email = trim_space a.email;
        cache = cache_dir_of a.cache_dir;
        host_policy = is_under domain;
        directory_url =
            if a.staging
            then some (text "https://acme-staging-v02.api.letsencrypt.org/directory")
            else none;
      } in
      record {
        config = record (ca.manager_config m) {
          min_version = 0x0303;
          next_protos = text "h3" ∷ text "h2" ∷ text "http/1.1" ∷ text "secure-overlay" ∷ [];
        };
        manager = some m;
        prefetched = domain ∷ (text "tunnel." ++ domain) ∷ [];
      }

  abbrev without_manager : Option (TlsConfig ca.Certificate) → Option (TlsBundle ca.Certificate)
  without_manager none = none
  without_manager (some config) = some (record { config = config; manager = none; prefetched = [] })

  unfoldable pub resolve_tls : AcmeConfig → Option (TlsBundle ca.Certificate)
  unfolding acme_tls_config generate_ephemeral_tls
  resolve_tls a =
      let domain = to_lower (trim_space a.domain) in
      if enabled a
      then some (acme_tls_config a (or_text domain (text "0trust.cloud")))
      else without_manager (generate_ephemeral_tls domain)
