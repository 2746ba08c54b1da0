-- ===== src/Gossip/Exchange/Tests.antt =====
-- An envelope that one node publishes and another takes.
use secure_network.Prelude.{
  ℕ, ◌+◌, ◌<◌, ◌≤◌, ◌≡◌, refl, true, [], ◌∷◌, ◌++◌, none, some, arith, Bytes, text, length, lookup,
}
use secure_network.Strings.Hex.{IsByteList, encode_hex}
use secure_network.Strings.Base64.{encode_base64}
use secure_network.Strings.Decimal.{decimal}
use secure_network.Framing.{max_frame_size, write_frame}
use secure_network.Framing.Laws.{frame}
use secure_network.Json.{IsPlain}
use secure_network.Json.Sample.{sample, sample-IsJsonText, sample_print, unary}
use secure_network.Wire.{
  ApiPayload, PeerMessage, GossipEnvelope, gossip_envelope_members, marshal_gossip_envelope,
  peer_message_members, api_payload_members, marshal_peer_message, marshal_api_payload,
  unmarshal_api_payload, unmarshal_peer_message,
}
use secure_network.Platform.{Engine, Handler}
use secure_network.Mesh.{MeshNode, send_action}
use secure_network.Mesh.Delivery.{Delivers}
use secure_network.Mesh.Sample.{tag, sealed_wire, sealed_wire-IsWriter, sealed_wire-IsChannel}
use secure_network.PeerRoute.{rpc_action, peer_message, broadcast}
use secure_network.Gossip.{GossipManager, is_duplicate, envelope, publish}
use secure_network.Gossip.Exchange.{IsTaken, publish-handle_ingress}

abbrev allow_all : Engine ℕ
allow_all script tx s = (s, true)

abbrev count_up : Handler ℕ GossipEnvelope
count_up env s = (s + 1, none)

abbrev manager : GossipManager ℕ
manager = record { handlers = (text "s", count_up) ∷ []; seen = []; lamport = 4 }

abbrev hash : Bytes → Bytes
hash b = []

abbrev ping : GossipEnvelope
ping = envelope 1 (text "s") (text "ok") [] 5

abbrev raw : Bytes
raw = marshal_gossip_envelope sample ping

abbrev node : MeshNode sealed_wire
node = record { noise_pub = text "k"; stream = some []; cs_send = some 3; cs_recv = none }

abbrev message : PeerMessage
message = peer_message sealed_wire sample hash 1 (text "gossip") (text "gossip") raw (text "k")

abbrev action : ApiPayload
action = rpc_action sealed_wire sample hash 1 message

abbrev after_publish : MeshNode sealed_wire
after_publish = record node {
  stream = some (frame (tag ++ marshal_api_payload sample action));
  cs_send = some 4;
}

ping-IsPlain : IsPlain (gossip_envelope_members sample ping)
unfolding envelope unary encode_base64 decimal
ping-IsPlain = ground arith

message-IsPlain : IsPlain (peer_message_members sample message)
unfolding peer_message envelope unary encode_base64 decimal encode_hex marshal_gossip_envelope
    sample_print
message-IsPlain = ground arith

action-IsPlain : IsPlain (api_payload_members sample action)
unfolding peer_message envelope unary encode_base64 decimal encode_hex marshal_gossip_envelope
    marshal_peer_message sample_print
action-IsPlain = ground arith

raw-IsByteList : IsByteList raw
unfolding envelope unary encode_base64 decimal marshal_gossip_envelope sample_print
raw-IsByteList = ground arith

action_fits : length (marshal_api_payload sample action) + 16 ≤ max_frame_size
unfolding peer_message envelope unary encode_base64 decimal encode_hex marshal_gossip_envelope
    marshal_peer_message marshal_api_payload sample_print
action_fits = omega arith

publishes :
    publish sealed_wire sample hash 1 (text "s") (text "ok") [] manager (some (some node))
    ≡ (record manager { lamport = 5 }, some (some after_publish), none)
unfolding publish broadcast send_action write_frame frame peer_message secure_network.Gossip.tick
    secure_network.Gossip.send_gossip secure_network.Mesh.connected marshal_api_payload sample_print
    marshal_peer_message encode_hex encode_base64 marshal_gossip_envelope envelope decimal unary
publishes = refl

publish-handle_ingress_example :
    (d : Bytes) × (a : ApiPayload) × (msg : PeerMessage) × Delivers sealed_wire
      (λ w. w)
      (λ a b. a ≡ b)
      sealed_wire-IsWriter
      sealed_wire-IsChannel
      []
      3
      d
      after_publish
    × (unmarshal_api_payload sample d ≡ some a)
    × (a.action ≡ text "rpc")
    × (unmarshal_peer_message sample a.content ≡ some msg)
    × (msg.route ≡ text "gossip")
    × (4 < 5)
    × IsTaken sealed_wire sample sample-IsJsonText hash allow_all true 1 100
        (text "s")
        (text "ok")
        []
        manager
        manager
        0
        5
        msg.payload
unfolding is_duplicate lookup
publish-handle_ingress_example =
    publish-handle_ingress sealed_wire sample sample-IsJsonText hash allow_all true 1 100 (text "s")
      (text "ok") [] manager manager 0 ping-IsPlain (ground arith) tt (omega arith) (λ w. w)
      (λ a b. a ≡ b) sealed_wire-IsWriter sealed_wire-IsChannel [] 3 3 node after_publish
      (record manager { lamport = 5 }) message-IsPlain action-IsPlain raw-IsByteList (ground arith)
      action_fits refl refl refl (omega arith) refl publishes
