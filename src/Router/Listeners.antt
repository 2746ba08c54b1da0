-- ===== src/Router/Listeners.antt =====
-- NewRouter of router.go, as far as TLS goes, and the servers that Boot starts.
use secure_network.Prelude.{
  ◌≡◌, Bool, false, List, [], ◌∷◌, Option, none, some, Bytes, text, if◌then◌else◌, is_some, arith,
  inl, inr, Option-cases,
}
use secure_network.Http.{or_text}
use secure_network.Tls.{AcmeConfig, Manager, Issuer, TlsConfig, TlsBundle, enabled, resolve_tls}
use secure_network.Tls.HostPolicy.{resolve_tls-manager}

pub record RouterConfig : Type 0 where
  pub acme : AcmeConfig
  pub http_only : Bool

abbrev pub RouterOption : Type 0
RouterOption = RouterConfig → RouterConfig

abbrev pub with_acme : AcmeConfig → RouterOption
with_acme a rc = record rc { acme = a }

abbrev pub with_http_only : Bool → RouterOption
with_http_only on rc = record rc { http_only = on }

abbrev apply : List RouterOption → RouterConfig → RouterConfig
apply [] rc = rc
apply (opt ∷ opts) rc = apply opts (opt rc)

-- The zero value, with the options applied in their order.
unfoldable pub configured : List RouterOption → RouterConfig
configured opts = apply opts (record {
  acme = record { email = []; cache_dir = []; domain = []; staging = false };
  http_only = false;
})

-- A server that listens: where TLS was terminated before, for HTTP-01 challenges on port 80, on QUIC, and
-- on TCP with TLS.
pub data Listener : Type 0 where
  plain http3 https : Bytes → Listener
  challenges : Listener

abbrev pub tunnel_port : Bytes → Bytes
tunnel_port quic_port = or_text quic_port (text "443")

module _ (ca : Issuer) where
  -- The fields TLSConfig, AutocertManager and HTTPOnly.
  pub record TlsRouter : Type 0 where
    pub tls_config : TlsConfig ca.Certificate
    pub autocert_manager : Option Manager
    pub http_only : Bool

  abbrev built : Bool → Option (TlsBundle ca.Certificate) → Option TlsRouter
  built http_only none = none
  built http_only (some b) =
      some (record { tls_config = b.config; autocert_manager = b.manager; http_only = http_only })

  unfoldable pub new_router : List RouterOption → Option TlsRouter
  new_router opts = let rc = configured opts in built rc.http_only (resolve_tls ca rc.acme)

  -- startDualStackIngress and startACMEHTTP: the servers, each with the handler of the ingress.
  unfoldable pub start_dual_stack_ingress : Bytes → TlsRouter → List Listener
  start_dual_stack_ingress port r =
      let both = http3 port ∷ https port ∷ [] in
      if r.http_only
      then plain port ∷ []
      else if is_some r.autocert_manager
      then challenges ∷ both
      else both

  -- The servers of a router that NewRouter returned, by its options: a router behind a TLS terminator
  -- listens without TLS and on nothing else, whatever its ACME configuration; any other listens with QUIC
  -- and TLS on its port, and for HTTP-01 challenges exactly if an e-mail address was given.
  pub start_dual_stack_ingress-new_router :
      (opts : List RouterOption) (port : Bytes) (r : TlsRouter)
      → new_router opts ≡ some r
      → let rc = configured opts in
        let both = http3 port ∷ https port ∷ [] in
        start_dual_stack_ingress port r ≡ (
          if rc.http_only
          then plain port ∷ []
          else if enabled rc.acme
          then challenges ∷ both
          else both)
  unfolding new_router start_dual_stack_ingress
  start_dual_stack_ingress-new_router opts port r made =
      elim (Option-cases (resolve_tls ca (configured opts).acme)) [
        | inl failed ↦ absurd (ground arith)
        | inr (b, resolved) ↦
            let managed = resolve_tls-manager ca (configured opts).acme b resolved in ground arith
      ]
