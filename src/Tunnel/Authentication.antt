-- ===== src/Tunnel/Authentication.antt =====
-- authenticate: the window for a machine's nonce, and what is checked of its credential.
use secure_network.Prelude.{
  ℕ, ◌+◌, ◌-◌, ◌^◌, ◌<◌, ◌≤◌, ◌≡◌, ◌≢◌, true, false, Option, none, some, arith, Bytes, text, eq_iff,
  ok, err, ◌++◌, ◌↔◌,
}
use secure_network.Strings.Decimal.{sscanf_int64, decimal, sscanf_int64-decimal}
use secure_network.Strings.Hex.{IsByteList}
use secure_network.Strings.Base64.{encode_base64, decode_base64, decode_base64-encode_base64}
use secure_network.Wire.{TunnelAuthPayload}
use secure_network.Tunnel.{
  Services, window_exceeded, bad_credential, unknown_profile, or_zero, is_expired, authenticate,
  authenticate_machine, session_subject, stored, auth_message, agent_message, agent_credential,
  TunnelAgentConfig,
}

-- The window check on a clock below 2^63: for a timestamp from 0 on it refuses exactly what is more
-- than 60 seconds old, so that every future time passes; for a negative timestamp -k the difference
-- overflows from a certain k on, and then the nonce passes although it is older than any window.
pub is_expired_iff :
    (now : ℕ)
    → now < 2 ^ 63
    → ((timestamp : ℕ)
        → timestamp < 2 ^ 63
        → (is_expired now timestamp ≡ true) ↔ (timestamp + 60 < now))
      × ((k : ℕ) → 60 < k → k ≤ 2 ^ 63 → (is_expired now (2 ^ 64 - k) ≡ true) ↔ (now + k < 2 ^ 63))
unfolding is_expired
is_expired_iff now h = (λ timestamp ht. ground arith, λ k hk hk'. ground arith)

module _ {S : Type 0} (env : Services S) (now : ℕ) (msg : TunnelAuthPayload) (s : S) where
  -- What authenticate returns on each branch. A human's subject is what ValidateCookieToken makes of
  -- the credential. A machine is believed its identifier if its nonce is in the window, its
  -- credential is base64 and the store takes it; nothing else of the credential is looked at. Any
  -- other identity type is refused.
  pub authenticate_cases :
      (msg.identity_type ≡ text "human"
        → authenticate env now msg s
          ≡ (s, session_subject (env.validate_cookie_token msg.credential)))
      × (msg.identity_type ≡ text "machine"
          → is_expired now (or_zero (sscanf_int64 msg.nonce)) ≡ true
          → authenticate env now msg s ≡ (s, err window_exceeded))
      × (msg.identity_type ≡ text "machine"
          → is_expired now (or_zero (sscanf_int64 msg.nonce)) ≡ false
          → decode_base64 msg.credential ≡ none
          → authenticate env now msg s ≡ (s, err bad_credential))
      × ((sig : Bytes)
          → msg.identity_type ≡ text "machine"
          → is_expired now (or_zero (sscanf_int64 msg.nonce)) ≡ false
          → decode_base64 msg.credential ≡ some sig
          → authenticate env now msg s
            ≡ stored msg.identifier (env.put (text "data:temp_verify:" ++ msg.identifier) sig 60 s))
      × (msg.identity_type ≢ text "human"
          → msg.identity_type ≢ text "machine"
          → authenticate env now msg s ≡ (s, err unknown_profile))
  unfolding authenticate authenticate_machine
  authenticate_cases = (
    λ human. ground (arith, eq_iff msg.identity_type (text "human")),
    λ machine old.
        ground (
          arith,
          eq_iff msg.identity_type (text "human"),
          eq_iff msg.identity_type (text "machine"),
        ),
    λ machine young bad.
        ground (
          arith,
          eq_iff msg.identity_type (text "human"),
          eq_iff msg.identity_type (text "machine"),
        ),
    λ sig machine young good.
        ground (
          arith,
          eq_iff msg.identity_type (text "human"),
          eq_iff msg.identity_type (text "machine"),
        ),
    λ other other'.
        ground (
          arith,
          eq_iff msg.identity_type (text "human"),
          eq_iff msg.identity_type (text "machine"),
        ),
  )

fresh_nonce :
    (t now : ℕ)
    → t ≤ now
    → now ≤ t + 60
    → now < 2 ^ 63
    → is_expired now (or_zero (sscanf_int64 (decimal t))) ≡ false
unfolding is_expired
fresh_nonce t now from until small = rw (sscanf_int64-decimal t (omega arith)) (ground arith)

-- A machine's credential is not verified: whatever the bytes of the signature, a message that claims
-- an identifier with a current nonce and those bytes in base64 is believed the identifier, if the
-- store takes the bytes.
pub authenticate_any_signature :
    {S : Type 0} (env : Services S) (now : ℕ) (msg : TunnelAuthPayload) (sig : Bytes) (s : S)
    → now < 2 ^ 63
    → IsByteList sig
    → msg.identity_type ≡ text "machine"
    → msg.credential ≡ encode_base64 sig
    → msg.nonce ≡ decimal now
    → (env.put (text "data:temp_verify:" ++ msg.identifier) sig 60 s).1 ≡ true
    → (authenticate env now msg s).1 ≡ ok msg.identifier
authenticate_any_signature env now msg sig s small bytes machine credential nonce takes = ground (
  arith,
  (authenticate_cases env now msg s).3 sig machine
      (rw nonce (fresh_nonce now now (omega arith) (omega arith) small))
      (rw credential (decode_base64-encode_base64 sig bytes)),
)

-- What a machine's agent sends is in the window for 60 seconds: the message that RunMeshTunnelAgent
-- builds at the time `t` with a signer is authenticated as the agent's identifier at any time up to
-- `t + 60`, on a clock below 2^63, if the signer's text is base64 and the store takes it.
pub authenticate-agent_message :
    {S : Type 0} (env : Services S) (t now : ℕ) (cfg : TunnelAgentConfig S) (s s' : S)
    (signer : Bytes → S → S × Option Bytes) (credential sig : Bytes)
    → cfg.identity_type ≡ text "machine"
    → cfg.signer ≡ some signer
    → signer (decimal t ++ (text "|" ++ cfg.subdomain)) s ≡ (s', some credential)
    → decode_base64 credential ≡ some sig
    → (env.put (text "data:temp_verify:" ++ cfg.identifier) sig 60 s').1 ≡ true
    → t ≤ now
    → now ≤ t + 60
    → now < 2 ^ 63
    → (msg : TunnelAuthPayload) × (agent_message t cfg s ≡ (s', some msg))
      × ((authenticate env now msg s').1 ≡ ok cfg.identifier)
unfolding agent_message agent_credential auth_message
authenticate-agent_message env t now cfg s s' signer credential sig machine has signed good takes
      from until small =
    (
      auth_message t cfg credential,
      rw (has, agent_credential) (ground (arith, eq_iff cfg.identity_type (text "machine"))),
      ground (
        arith,
        (authenticate_cases env now (auth_message t cfg credential) s').3 sig machine
            (fresh_nonce t now from until small) good,
      ),
    )
