-- ===== src/Tunnel/Agent.antt =====
-- RunMeshTunnelAgent of tunnel.go: what it writes to its stream, in one Write.
pub mod Rounds
mod Tests
use secure_network.Prelude.{Bytes, text}
use secure_network.Json.{JsonText, obj, member, str, end}
use secure_network.Wire.{TunnelAuthPayload, marshal_tunnel_auth}

unfoldable pub agent_request : JsonText → TunnelAuthPayload → Bytes
agent_request j msg = j.print (
    obj (
      member (text "action") (str (text "tunnel_bind"))
        (member (text "content") (str (marshal_tunnel_auth j msg)) end)))
