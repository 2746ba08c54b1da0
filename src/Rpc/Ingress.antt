-- ===== src/Rpc/Ingress.antt =====
-- handleIngress, branch by branch.
use secure_network.Prelude.{
  ℕ, ◌≡◌, ◌≢◌, refl, true, false, Option, none, some, arith, Bytes, lookup, lookup-insert_self,
  lookup-insert_ne, if◌then◌else◌, ltb, length, text,
}
use secure_network.Json.{JsonText, IsJsonText, IsPlain}
use secure_network.Wire.{
  RpcPacket, PeerMessage, unmarshal_rpc_packet, marshal_rpc_packet, marshal_peer_message,
  peer_message_members,
}
use secure_network.Wire.RoundTrip.{unmarshal_rpc_packet-marshal_peer_message}
use secure_network.Platform.{Transport, Engine}
use secure_network.Mesh.{MeshNode}
use secure_network.PeerRoute.{broadcast, send_to_peer}
use secure_network.Rpc.{
  RpcManager, RpcHandler, deposit, serve, receive, handle_ingress, send_reply, reply, rpc_script,
  rpc_invocation,
}

module _ (net : Transport) (j : JsonText) (sha256 : Bytes → Bytes) {S : Type 0} (compile : Engine S)
    (now : ℕ) (payload : Bytes) (m : RpcManager S) (mesh : Option (MeshNode net)) (s : S) where
  pub handle_ingress-malformed :
      unmarshal_rpc_packet j payload ≡ none
      → handle_ingress net j sha256 compile now payload m mesh s ≡ (m, mesh, s)
  unfolding handle_ingress
  handle_ingress-malformed e = rw (e, handle_ingress)

  pub handle_ingress-deposit :
      (p : RpcPacket)
      → unmarshal_rpc_packet j payload ≡ some p
      → p.response ≡ true
      → handle_ingress net j sha256 compile now payload m mesh s ≡ (deposit p m, mesh, s)
  unfolding handle_ingress receive
  handle_ingress-deposit p e r = rw (e, handle_ingress) (rw r)

  pub handle_ingress-serve :
      (p : RpcPacket)
      → unmarshal_rpc_packet j payload ≡ some p
      → p.response ≡ false
      → handle_ingress net j sha256 compile now payload m mesh s
        ≡ (let (mesh', s') = serve net j sha256 compile now p m mesh s in (m, mesh', s'))
  unfolding handle_ingress receive
  handle_ingress-serve p e r = rw (e, handle_ingress) (rw r)

  -- A response runs no handler and sends nothing. It reaches the pending call of its id if that has
  -- no answer yet; an answer that is there stays, a response to no call is dropped, and the calls of
  -- other ids are left alone.
  pub handle_ingress-response :
      (p : RpcPacket)
      → unmarshal_rpc_packet j payload ≡ some p
      → p.response ≡ true
      → let (m', mesh', s') = handle_ingress net j sha256 compile now payload m mesh s in
        (mesh' ≡ mesh)
        × (s' ≡ s)
        × (lookup p.id m.pending ≡ some none → lookup p.id m'.pending ≡ some (some p))
        × (lookup p.id m.pending ≢ some none → m' ≡ m)
        × ((id : Bytes) → p.id ≢ id → lookup id m'.pending ≡ lookup id m.pending)
  unfolding deposit
  handle_ingress-response p e r = rw (handle_ingress-deposit p e r) (
    refl,
    refl,
    λ waiting. ground (arith, lookup-insert_self p.id (some p) m.pending),
    λ other. ground arith,
    λ id ne. ground (arith, lookup-insert_ne p.id id (some p) m.pending),
  )

  module _ (p : RpcPacket) (handler : RpcHandler S)
      (parsed : unmarshal_rpc_packet j payload ≡ some p) (request : p.response ≡ false) where
    -- A request leaves the manager as it is. Without a registered method, or where the SDF engine
    -- refuses, nothing is sent and no handler runs. Otherwise the handler runs once, on the state that
    -- the engine left, and the answer carries the request's id and method, the handler's payload and
    -- its error's text, is marked as a response and addressed to the request's source; it goes to
    -- that source, or is broadcast where the request names none.
    pub handle_ingress-request :
        (node : MeshNode net)
        → mesh ≡ some node
        → let asked = compile (rpc_script p.method) (rpc_invocation p) s in
          let result = handle_ingress net j sha256 compile now payload m mesh s in
          let (s', answer, e) = handler p.payload asked.0 in
          let raw = marshal_rpc_packet j (reply p answer e now) in
          (asked.1 ≡ false → result ≡ (m, mesh, asked.0))
          × (asked.1 ≡ true → lookup p.method m.handlers ≡ none → result ≡ (m, mesh, asked.0))
          × (asked.1 ≡ true
              → lookup p.method m.handlers ≡ some handler
              → result ≡ (
                m,
                if ltb 0 (length p.source)
                    then (send_to_peer net j sha256 now mesh p.source (text "rpc") raw).0
                    else (broadcast net j sha256 now mesh (text "rpc") raw).0,
                s',
              ))
    unfolding serve send_reply
    handle_ingress-request node e = rw (handle_ingress-serve p parsed request) (
        rw e
          (λ refused. ground arith, λ allowed missing. ground arith, λ allowed found. ground arith))

-- What the peer route sends under the action "rpc" is lost on the RPC manager: given the content that
-- Broadcast or SendToPeer wrapped, the marshalled PeerMessage, handleIngress changes nothing, runs
-- nothing and sends nothing, for a message whose texts are ASCII.
pub handle_ingress-marshal_peer_message :
    (net : Transport) (j : JsonText) (sha256 : Bytes → Bytes) {S : Type 0} (compile : Engine S)
    (now : ℕ) (msg : PeerMessage) (m : RpcManager S) (mesh : Option (MeshNode net)) (s : S)
    → IsJsonText j
    → IsPlain (peer_message_members j msg)
    → handle_ingress net j sha256 compile now (marshal_peer_message j msg) m mesh s ≡ (m, mesh, s)
handle_ingress-marshal_peer_message net j sha256 compile now msg m mesh s law plain =
    handle_ingress-malformed net j sha256 compile now (marshal_peer_message j msg) m mesh s
      (unmarshal_rpc_packet-marshal_peer_message j law msg plain)
