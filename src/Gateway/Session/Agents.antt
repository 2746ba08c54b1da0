-- ===== src/Gateway/Session/Agents.antt =====
-- What a tunnel's agent writes (tunnel.go), as HandleSecureStream of gateway.go reads it.
use secure_network.Prelude.{ℕ, ◌≡◌, ap, ◌∙◌, none, Bytes, ◌++◌, err, arith}
use secure_network.Framing.{too_large, read_frame, max_frame_size}
use secure_network.Framing.Consumption.{read_frame_large}
use secure_network.Json.{JsonText, IsJsonText}
use secure_network.Wire.{TunnelAuthPayload}
use secure_network.Platform.{Transport, Engine}
use secure_network.Tunnel.Agent.{agent_request}
use secure_network.Gateway.{Gateway, Responder, Router}
use secure_network.Gateway.Session.{open_session, first_frame}

-- The gateway refuses every agent's tunnel_bind: the agent writes the JSON text itself, without a
-- handshake and without a frame, so that its first four bytes are read as the length of a frame that is
-- too large, and HandleSecureStream returns before it has opened a session. The gateway and the state
-- outside are as they were.
pub open_session-agent_request :
    {net : Transport} {S : Type 0} (noise : Responder net) (r : Router S) (compile : Engine S)
    (j : JsonText) (law : IsJsonText j) (msg : TunnelAuthPayload) (more : Bytes) (now link : ℕ)
    (stream : net.Stream) (g : Gateway net) (s : S)
    → ((read_frame (agent_request j msg ++ more) max_frame_size).0 ≡ err too_large)
      × (open_session noise r compile now link stream (agent_request j msg ++ more) g s
          ≡ (g, none, s))
unfolding open_session first_frame agent_request
open_session-agent_request noise r compile j law msg more now link stream g s =
    let (a, b, c, t, e) = law.print-member _ _ _ in
    let large : (read_frame (agent_request j msg ++ more) max_frame_size).0 ≡ err too_large =
      ap (λ u. (read_frame (u ++ more) max_frame_size).0) e
      ∙ read_frame_large b'{' a b c (t ++ more) max_frame_size (omega arith) in
    (large, ap (λ o. first_frame noise r compile now link stream o g s) large)
