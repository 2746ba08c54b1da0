-- ===== src/Rpc/Offline.antt =====
-- Call of mesh_rpc.go where SendToPeer fails.
use secure_network.Prelude.{ℕ, ◌≡◌, refl, some, Bytes, Option, delete, insert, none, text}
use secure_network.Strings.Hex.{encode_hex}
use secure_network.Json.{JsonText}
use secure_network.Wire.{marshal_rpc_packet}
use secure_network.Platform.{Transport}
use secure_network.Mesh.{MeshNode}
use secure_network.PeerRoute.{RouteError, send_to_peer}
use secure_network.Rpc.{RpcManager, send_error, begin_call, begun, request}

pub begin_call_failed :
    {S : Type 0} (net : Transport) (j : JsonText) (sha256 : Bytes → Bytes) (now : ℕ)
    (bytes target method payload : Bytes) (m : RpcManager S) (mesh : Option (MeshNode net))
    (e : RouteError)
    → ((raw : Bytes) → send_to_peer net j sha256 now mesh target (text "rpc") raw ≡ (mesh, some e))
    → let id = encode_hex bytes in
      begin_call net j sha256 now bytes target method payload m mesh
      ≡ (record m { pending = delete id (insert id none m.pending) }, mesh, some (send_error e))
unfolding begin_call begun
begin_call_failed net j sha256 now bytes target method payload m mesh e fails =
    rw (fails (marshal_rpc_packet j (request (encode_hex bytes) method payload target now))) refl
