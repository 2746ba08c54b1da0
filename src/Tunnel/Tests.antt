-- ===== src/Tunnel/Tests.antt =====
-- The tunnel manager's theorems at concrete messages.
use secure_network.Prelude.{
  ℕ, ◌+◌, ◌-◌, ◌^◌, ◌<◌, ◌≤◌, ◌≡◌, ◌↔◌, refl, true, [], ◌∷◌, Option, none, some, arith, Bytes, text,
  ◌==◌, if◌then◌else◌, lookup, insert, ok,
}
use secure_network.Strings.{to_lower}
use secure_network.Strings.Decimal.{decimal}
use secure_network.Strings.Base64.{encode_base64, decode_base64}
use secure_network.Json.Sample.{sample, sample_print, sample_parse}
use secure_network.Wire.{TunnelAuthPayload, marshal_tunnel_auth, unmarshal_tunnel_auth}
use secure_network.Tunnel.{
  Services, TunnelError, window_exceeded, bad_credential, unknown_profile, Tunnels,
  TunnelAgentConfig, or_zero, is_expired, authenticate, session_subject, stored, register_tunnel,
  claim, close, cleanup, dial, agent_message,
}
use secure_network.Tunnel.Authentication.{is_expired_iff, authenticate_any_signature}
use secure_network.Tunnel.Dial.{IsLabel}
use secure_network.Strings.HostPort.{IsPlainHost}
use secure_network.Tunnel.Takeover.{
  Has, Registers, Step, claims, Reach, here, next, no_tunnels, register_tunnel-Registers,
  Reach-open, takeover_lost,
}

-- A cookie names its subject, "ann" may do everything, and the store counts what it took.
abbrev services : Services ℕ
services = record {
  validate_cookie_token = λ token. if token == text "c1" then some (text "ann") else none;
  evaluate = λ subject action object. subject == text "ann";
  put = λ key value ttl s. (s + 1, true);
}

abbrev machine : TunnelAuthPayload
machine = record {
  subdomain = text "web";
  identity_type = text "machine";
  identifier = text "m1";
  credential = text "AQI=";
  nonce = text "100";
}

abbrev human : TunnelAuthPayload
human = record machine { identity_type = text "human"; credential = text "c1" }

human_parses : unmarshal_tunnel_auth sample (marshal_tunnel_auth sample human) ≡ some human
unfolding unmarshal_tunnel_auth marshal_tunnel_auth sample_print sample_parse to_lower ◌==◌
human_parses = refl

is_expired_iff_example :
    ((timestamp : ℕ)
      → timestamp < 2 ^ 63
      → (is_expired 1000 timestamp ≡ true) ↔ (timestamp + 60 < 1000))
    × ((k : ℕ) → 60 < k → k ≤ 2 ^ 63 → (is_expired 1000 (2 ^ 64 - k) ≡ true) ↔ (1000 + k < 2 ^ 63))
is_expired_iff_example = is_expired_iff 1000 (omega arith)

machine-nonce : machine.nonce ≡ decimal 100
unfolding decimal
machine-nonce = refl

machine-credential : machine.credential ≡ encode_base64 (1 ∷ 2 ∷ [])
unfolding encode_base64
machine-credential = refl

authenticate_any_signature_example : (authenticate services 100 machine 0).1 ≡ ok (text "m1")
authenticate_any_signature_example =
    authenticate_any_signature services 100 machine (1 ∷ 2 ∷ []) 0 (omega arith)
      (omega arith, (omega arith, tt)) refl machine-credential machine-nonce refl

abbrev sign : Bytes → ℕ → ℕ × Option Bytes
sign message s = (s + 1, some (text "AQI="))

abbrev agent : TunnelAgentConfig ℕ
agent = record {
  subdomain = text "web";
  identity_type = text "machine";
  identifier = text "m1";
  session_token = [];
  signer = some sign;
}

signature_decodes : decode_base64 (text "AQI=") ≡ some (1 ∷ 2 ∷ [])
unfolding decode_base64
signature_decodes = refl

abbrev one_tunnel : Tunnels
one_tunnel = record { tunnels = (text "web", 1) ∷ []; watchers = (1, text "web") ∷ []; closed = [] }

register_tunnel-Registers_example :
    Registers services 2
      (text "web")
      one_tunnel
      (authenticate services 100 human 0).1
      (register_tunnel sample services 100 2 (marshal_tunnel_auth sample human) one_tunnel 0)
register_tunnel-Registers_example =
    register_tunnel-Registers sample services 100 2 (marshal_tunnel_auth sample human) one_tunnel 0
      human human_parses

register_tunnel_test :
    register_tunnel sample services 100 2 (marshal_tunnel_auth sample human) one_tunnel 0
    ≡ (claim 2 (text "web") one_tunnel, 0, none)
unfolding register_tunnel secure_network.Tunnel.admit authenticate unmarshal_tunnel_auth
    marshal_tunnel_auth sample_print sample_parse to_lower ◌==◌
register_tunnel_test = refl

one_tunnel-Reach : Reach no_tunnels one_tunnel
unfolding claim lookup insert
one_tunnel-Reach = next here (claims 1 (text "web") refl)

one_tunnel-web : lookup (text "web") one_tunnel.tunnels ≡ some 1
unfolding lookup ◌==◌
one_tunnel-web = refl

Reach-open_example : ¬ Has 1 one_tunnel.closed
Reach-open_example = Reach-open (text "web") 1 one_tunnel-Reach (λ c name w h. h) one_tunnel-web

takeover_lost_example :
    let t' = claim 2 (text "web") one_tunnel in
    (lookup (text "web") t'.tunnels ≡ some 2)
    × ((u : Tunnels) × Step t' u × (lookup (text "web") u.tunnels ≡ none) × (¬ Has 2 u.closed))
takeover_lost_example =
    takeover_lost (text "web") 1 2 one_tunnel-Reach one_tunnel-web (omega arith) (λ h. h)

web-IsLabel : IsLabel (text "web")
web-IsLabel = ground arith

example-IsPlainHost : IsPlainHost (text "example.com")
example-IsPlainHost = ground arith

port-IsPlainHost : IsPlainHost (text "443")
port-IsPlainHost = ground arith
