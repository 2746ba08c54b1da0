-- ===== src/PeerRoute/Sending.antt =====
-- SendToPeer on a node that cannot send, and what Broadcast puts on the stream of one that can.
use secure_network.Prelude.{
  ℕ, ◌≡◌, refl, Option, none, some, Bytes, arith, ◌+◌, ◌≤◌, length, Bool-cases, inl, inr,
}
use secure_network.Strings.Hex.{IsByteList}
use secure_network.Framing.{max_frame_size}
use secure_network.Framing.Laws.{IsWriter}
use secure_network.Json.{JsonText, IsJsonText, IsPlain}
use secure_network.Wire.{
  ApiPayload, api_payload_members, peer_message_members, marshal_api_payload, unmarshal_api_payload,
  unmarshal_peer_message,
}
use secure_network.Wire.RoundTrip.{unmarshal_peer_message-marshal}
use secure_network.Platform.{Transport}
use secure_network.Mesh.{MeshNode, SendError, send_action, connected}
use secure_network.Mesh.Delivery.{IsChannel, Delivers, unmarshal_api_payload-send_action}
use secure_network.PeerRoute.{
  send_to_peer, send_failed, rpc_action, peer_message, broadcast, send_result,
}

-- The error of SendAction is the error of SendToPeer, if SendAction left the node alone.
pub send_to_peer_failed :
    (net : Transport) (j : JsonText) (sha256 : Bytes → Bytes) (now : ℕ) (m : MeshNode net)
    (peer route payload : Bytes) (e : SendError)
    → ((p : ApiPayload) → send_action net j m p ≡ (m, some e))
    → send_to_peer net j sha256 now (some m) peer route payload ≡ (some m, some (send_failed e))
unfolding send_to_peer
send_to_peer_failed net j sha256 now m peer route payload e fails =
    let msg = peer_message net j sha256 now peer route payload m.noise_pub in
    rw (fails (rpc_action net j sha256 now msg)) refl

module _ (net : Transport) (j : JsonText) (sha256 : Bytes → Bytes) (now : ℕ) where
  send_result_sent :
      (r : MeshNode net × Option SendError) (m' : MeshNode net)
      → send_result net j sha256 now r ≡ (m', none)
      → r ≡ (m', none)
  send_result_sent (m, none) m' e = ground arith
  send_result_sent (m, some x) m' e = absurd (ground arith)

  broadcast_sent :
      (m m' : MeshNode net) (route payload : Bytes)
      → broadcast net j sha256 now (some m) route payload ≡ (some m', none)
      → send_action net j m (
          rpc_action net j sha256 now
            (peer_message net j sha256 now route route payload m.noise_pub))
        ≡ (m', none)
  unfolding broadcast
  broadcast_sent m m' route payload e =
      let msg = peer_message net j sha256 now route route payload m.noise_pub in
      let sent = send_action net j m (rpc_action net j sha256 now msg) in
      elim (Bool-cases (connected net m)) [
        | inl up ↦ send_result_sent sent m' (ground arith)
        | inr down ↦ absurd (ground arith)
      ]

  -- Where Broadcast returns nil, the stream has got one frame, which is decrypted at the other end to an
  -- action "rpc" whose content is a PeerMessage with the route and the payload.
  pub broadcast-Delivers :
      (contents : net.Stream → Bytes) (Fit : net.Cipher → net.Cipher → Type 0)
      (writer : IsWriter net.write contents) (channel : IsChannel net Fit) (law : IsJsonText j)
      (w : net.Stream) (a b : net.Cipher) (m m' : MeshNode net) (route payload : Bytes)
      → let msg = peer_message net j sha256 now route route payload m.noise_pub in
        let action = rpc_action net j sha256 now msg in
        IsPlain (api_payload_members j action)
        → IsPlain (peer_message_members j msg)
        → IsByteList payload
        → IsByteList m.noise_pub
        → length (marshal_api_payload j action) + 16 ≤ max_frame_size
        → m.stream ≡ some w
        → m.cs_send ≡ some a
        → Fit a b
        → broadcast net j sha256 now (some m) route payload ≡ (some m', none)
        → (d : Bytes) × Delivers net contents Fit writer channel w b d m'
          × (unmarshal_api_payload j d ≡ some action)
          × (unmarshal_peer_message j action.content ≡ some msg)
          × (msg.route ≡ route)
          × (msg.payload ≡ payload)
  unfolding peer_message
  broadcast-Delivers contents Fit writer channel law w a b m m' route payload plain plain' bytes
        bytes' small stream cipher fit sent =
      let msg = peer_message net j sha256 now route route payload m.noise_pub in
      let (d, delivers, parsed) =
        unmarshal_api_payload-send_action net contents Fit writer channel j w a b
          (rpc_action net j sha256 now msg) m m' law plain (omega arith) small stream cipher fit
          (broadcast_sent m m' route payload sent) in
      (
        d,
        delivers,
        parsed,
        unmarshal_peer_message-marshal j law msg plain' bytes bytes',
        refl,
        refl,
      )
