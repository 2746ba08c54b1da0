-- ===== src/Wire/RoundTrip.antt =====
-- What is marshalled is unmarshalled again, where its texts are ASCII and its slices bytes.
use secure_network.Prelude.{◌^◌, ◌<◌, ◌≡◌, refl, none, some, arith, ◌==◌}
use secure_network.Strings.{to_lower}
use secure_network.Strings.Hex.{IsByteList}
use secure_network.Strings.Base64.{decode_base64-encode_base64}
use secure_network.Json.{obj, Members, JsonText, IsJsonText, IsPlain, document}
use secure_network.Wire.{
  ApiPayload, PeerMessage, GossipEnvelope, RpcPacket, TunnelAuthPayload, marshal_api_payload,
  api_payload_members, read_api_payload, tunnel_auth_members, read_tunnel_auth,
  gossip_envelope_members, read_gossip_envelope, rpc_packet_members, read_rpc_packet,
  peer_message_members, read_peer_message, unmarshal_api_payload, marshal_peer_message,
  marshal_gossip_envelope, unmarshal_gossip_envelope, marshal_rpc_packet, unmarshal_rpc_packet,
  marshal_tunnel_auth, unmarshal_tunnel_auth, unmarshal_peer_message,
}

module _ (j : JsonText) where
  read_tunnel_auth-members :
      (t : TunnelAuthPayload) → read_tunnel_auth j (tunnel_auth_members j t) ≡ some t
  unfolding read_tunnel_auth to_lower ◌==◌
  read_tunnel_auth-members t = refl

  read_api_payload-members :
      (p : ApiPayload) → p.value < 2 ^ 64 → read_api_payload j (api_payload_members j p) ≡ some p
  unfolding read_api_payload to_lower ◌==◌
  read_api_payload-members p small = ground arith

  module _ (law : IsJsonText j) where
    read_peer_message-members :
        (m : PeerMessage)
        → IsByteList m.payload
        → IsByteList m.origin
        → read_peer_message j (peer_message_members j m) ≡ some m
    unfolding read_peer_message to_lower ◌==◌
    read_peer_message-members m hp ho = ground (
      arith,
      decode_base64-encode_base64 m.payload hp,
      decode_base64-encode_base64 m.origin ho,
      law.parse_time-print_time m.timestamp,
    )

    read_gossip_envelope-members :
        (e : GossipEnvelope)
        → IsByteList e.payload
        → IsByteList e.signature
        → IsByteList e.origin
        → e.lamport < 2 ^ 64
        → read_gossip_envelope j (gossip_envelope_members j e) ≡ some e
    unfolding read_gossip_envelope to_lower ◌==◌
    read_gossip_envelope-members e hp hs ho small = ground (
      arith,
      decode_base64-encode_base64 e.payload hp,
      decode_base64-encode_base64 e.signature hs,
      decode_base64-encode_base64 e.origin ho,
      law.parse_time-print_time e.received_at,
    )

    read_rpc_packet-members :
        (p : RpcPacket)
        → IsByteList p.payload
        → IsByteList p.source
        → IsByteList p.target
        → p.timestamp < 2 ^ 64
        → read_rpc_packet j (rpc_packet_members j p) ≡ some p
    unfolding read_rpc_packet to_lower ◌==◌
    read_rpc_packet-members p hp hs ht small = ground (
      arith,
      decode_base64-encode_base64 p.payload hp,
      decode_base64-encode_base64 p.source hs,
      decode_base64-encode_base64 p.target ht,
    )

module _ (j : JsonText) (law : IsJsonText j) where
  pub document-print : (ms : Members) → IsPlain ms → document j (j.print (obj ms)) ≡ some ms
  unfolding document
  document-print ms plain = rw (law.parse-print ms plain)

  pub unmarshal_tunnel_auth-marshal :
      (t : TunnelAuthPayload)
      → IsPlain (tunnel_auth_members j t)
      → unmarshal_tunnel_auth j (marshal_tunnel_auth j t) ≡ some t
  unfolding unmarshal_tunnel_auth marshal_tunnel_auth
  unmarshal_tunnel_auth-marshal t plain = rw (document-print _ plain) (read_tunnel_auth-members j t)

  pub unmarshal_api_payload-marshal :
      (p : ApiPayload)
      → IsPlain (api_payload_members j p)
      → p.value < 2 ^ 64
      → unmarshal_api_payload j (marshal_api_payload j p) ≡ some p
  unfolding unmarshal_api_payload marshal_api_payload
  unmarshal_api_payload-marshal p plain small =
      rw (document-print _ plain) (read_api_payload-members j p small)

  pub unmarshal_peer_message-marshal :
      (m : PeerMessage)
      → IsPlain (peer_message_members j m)
      → IsByteList m.payload
      → IsByteList m.origin
      → unmarshal_peer_message j (marshal_peer_message j m) ≡ some m
  unfolding unmarshal_peer_message marshal_peer_message
  unmarshal_peer_message-marshal m plain hp ho =
      rw (document-print _ plain) (read_peer_message-members j law m hp ho)

  pub unmarshal_gossip_envelope-marshal :
      (e : GossipEnvelope)
      → IsPlain (gossip_envelope_members j e)
      → IsByteList e.payload
      → IsByteList e.signature
      → IsByteList e.origin
      → e.lamport < 2 ^ 64
      → unmarshal_gossip_envelope j (marshal_gossip_envelope j e) ≡ some e
  unfolding unmarshal_gossip_envelope marshal_gossip_envelope
  unmarshal_gossip_envelope-marshal e plain hp hs ho small =
      rw (document-print _ plain) (read_gossip_envelope-members j law e hp hs ho small)

  pub unmarshal_rpc_packet-marshal :
      (p : RpcPacket)
      → IsPlain (rpc_packet_members j p)
      → IsByteList p.payload
      → IsByteList p.source
      → IsByteList p.target
      → p.timestamp < 2 ^ 64
      → unmarshal_rpc_packet j (marshal_rpc_packet j p) ≡ some p
  unfolding unmarshal_rpc_packet marshal_rpc_packet
  unmarshal_rpc_packet-marshal p plain hp hs ht small =
      rw (document-print _ plain) (read_rpc_packet-members j law p hp hs ht small)

  -- A PeerMessage is no RPCPacket: its time is a text, where RPCPacket wants a number.
  pub unmarshal_rpc_packet-marshal_peer_message :
      (m : PeerMessage)
      → IsPlain (peer_message_members j m)
      → unmarshal_rpc_packet j (marshal_peer_message j m) ≡ none
  unfolding unmarshal_rpc_packet marshal_peer_message read_rpc_packet to_lower ◌==◌
  unmarshal_rpc_packet-marshal_peer_message m plain = rw (document-print _ plain) (ground arith)
