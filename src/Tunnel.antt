-- ===== src/Tunnel.antt =====
-- tunnel.go: the tunnel manager. A connection is a number. RegisterTunnel starts a goroutine that
-- waits for its connection to end and then deletes the subdomain: it is an entry of `watchers`. An
-- int64 is its 64-bit pattern, and its arithmetic wraps.
pub mod Authentication
pub mod Takeover
pub mod Dial
pub mod Agent
mod Tests
use secure_network.Prelude.{
  ℕ, ◌+◌, ◌-◌, ◌*◌, ◌%◌, ◌^◌, Bool, true, false, not, ◌&&◌, List, [], ◌∷◌, ◌++◌, Option, none, some,
  Bytes, text, ltb, eqb, ◌==◌, if◌then◌else◌, Map, lookup, insert, delete, Result, ok, err, map,
}
use secure_network.Strings.Decimal.{sscanf_int64, decimal}
use secure_network.Strings.Base64.{decode_base64}
use secure_network.Strings.HostPort.{split_host, first_part}
use secure_network.Json.{JsonText}
use secure_network.Wire.{TunnelAuthPayload, marshal_tunnel_auth, unmarshal_tunnel_auth}

-- What TunnelManager calls: the session manager's ValidateCookieToken, the policy engine's Evaluate
-- (with no context data) and the store's Put, with its time to live in seconds.
pub record Services (S : Type 0) : Type 0 where
  pub validate_cookie_token : Bytes → Option Bytes
  pub evaluate : Bytes → Bytes → Bytes → Bool
  pub put : Bytes → Bytes → ℕ → S → S × Bool

pub data TunnelError : Type 0 where
  malformed invalid_session window_exceeded bad_credential store_failed unknown_profile :
      TunnelError
  forbidden offline : TunnelError

pub record Tunnels : Type 0 where
  pub tunnels : Map ℕ
  pub watchers : List (ℕ × Bytes)
  -- The connections that are closed, by either side.
  pub closed : List ℕ

pub record TunnelEntry : Type 0 where
  pub subdomain : Bytes
  pub online : Bool

abbrev pub or_zero : Option ℕ → ℕ
or_zero none = 0
or_zero (some n) = n

-- `time.Now().Unix()-timestamp > 60` over int64.
pub is_expired : ℕ → ℕ → Bool
is_expired now timestamp =
    let age = (now + 2 ^ 64 - timestamp) % 2 ^ 64 in ltb age (2 ^ 63) && ltb 60 age

abbrev pub session_subject : Option Bytes → Result TunnelError Bytes
session_subject none = err invalid_session
session_subject (some subject) = ok subject

abbrev pub stored : {S : Type 0} → Bytes → S × Bool → S × Result TunnelError Bytes
stored identifier (s, true) = (s, ok identifier)
stored identifier (s, false) = (s, err store_failed)

module _ {S : Type 0} (env : Services S) where
  authenticate_machine : ℕ → TunnelAuthPayload → S → S × Result TunnelError Bytes
  authenticate_machine now msg s =
      if is_expired now (or_zero (sscanf_int64 msg.nonce))
      then (s, err window_exceeded)
      else elim (decode_base64 msg.credential) [
        | none ↦ (s, err bad_credential)
        | some sig ↦
            stored msg.identifier (env.put (text "data:temp_verify:" ++ msg.identifier) sig 60 s)
      ]

  pub authenticate : ℕ → TunnelAuthPayload → S → S × Result TunnelError Bytes
  authenticate now msg s =
      if msg.identity_type == text "human"
      then (s, session_subject (env.validate_cookie_token msg.credential))
      else if msg.identity_type == text "machine"
      then authenticate_machine now msg s
      else (s, err unknown_profile)

abbrev pub evicted : Option ℕ → List ℕ → List ℕ
evicted none closed = closed
evicted (some existing) closed = existing ∷ closed

-- The locked section of RegisterTunnel, and the goroutine that it starts.
pub claim : ℕ → Bytes → Tunnels → Tunnels
claim conn subdomain t = record {
  tunnels = insert subdomain conn t.tunnels;
  watchers = (conn, subdomain) ∷ t.watchers;
  closed = evicted (lookup subdomain t.tunnels) t.closed;
}

module _ {S : Type 0} (j : JsonText) (env : Services S) where
  admit : ℕ → Bytes → Tunnels → S × Result TunnelError Bytes → Tunnels × S × Option TunnelError
  admit conn subdomain t (s, err e) = (t, s, some e)
  admit conn subdomain t (s, ok subject) =
      if env.evaluate subject (text "bind") (text "tunnel:" ++ subdomain)
      then (claim conn subdomain t, s, none)
      else (t, s, some forbidden)

  pub register_tunnel : ℕ → ℕ → Bytes → Tunnels → S → Tunnels × S × Option TunnelError
  register_tunnel now conn auth_msg t s = elim (unmarshal_tunnel_auth j auth_msg) [
    | none ↦ (t, s, some malformed)
    | some msg ↦ admit conn msg.subdomain t (authenticate env now msg s)
  ]

-- A connection ends.
pub close : ℕ → Tunnels → Tunnels
close conn t = record t { closed = conn ∷ t.closed }

-- The goroutine of a watcher, once its connection is closed.
pub cleanup : ℕ × Bytes → List (ℕ × Bytes) → Tunnels → Tunnels
cleanup (conn, subdomain) rest t = record t {
  tunnels = delete subdomain t.tunnels;
  watchers = rest;
}

unfoldable pub list_tunnels : Tunnels → List TunnelEntry
list_tunnels t = map (λ e. record { subdomain = e.0; online = true }) t.tunnels

abbrev host_or : Bytes → Option Bytes → Bytes
host_or address none = address
host_or address (some host) = host

-- DialContext of the public proxy, up to the connection that it opens a stream on.
unfoldable pub dial : Bytes → Tunnels → Result TunnelError ℕ
dial address t = elim (lookup (first_part b'.' (host_or address (split_host address))) t.tunnels) [
  | none ↦ err offline
  | some conn ↦ ok conn
]

pub record TunnelAgentConfig (S : Type 0) : Type 0 where
  pub subdomain : Bytes
  pub identity_type : Bytes
  pub identifier : Bytes
  pub session_token : Bytes
  -- `none` is a nil Signer; its result `none` is its error.
  pub signer : Option (Bytes → S → S × Option Bytes)

-- RunMeshTunnelAgent: the message that it sends when it has a stream, `none` where signing fails.
module _ {S : Type 0} where
  auth_message : ℕ → TunnelAgentConfig S → Bytes → TunnelAuthPayload
  auth_message now cfg credential = record {
    subdomain = cfg.subdomain;
    identity_type = cfg.identity_type;
    identifier = cfg.identifier;
    credential = credential;
    nonce = decimal now;
  }

  agent_credential :
      ℕ → TunnelAgentConfig S → Option (Bytes → S → S × Option Bytes) → S → S × Option Bytes
  agent_credential now cfg none s = (s, some cfg.session_token)
  agent_credential now cfg (some signer) s =
      let signed = signer (decimal now ++ (text "|" ++ cfg.subdomain)) s in
      if cfg.identity_type == text "machine" then signed else (s, some cfg.session_token)

  pub agent_message : ℕ → TunnelAgentConfig S → S → S × Option TunnelAuthPayload
  agent_message now cfg s =
      let (s', credential) = agent_credential now cfg cfg.signer s in
      elim credential [ none ↦ (s', none) | some c ↦ (s', some (auth_message now cfg c)) ]
