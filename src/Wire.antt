-- ===== src/Wire.antt =====
-- The structs that travel as JSON documents, with what json.Marshal and json.Unmarshal make of their
-- tags: APIPayload and ContentMeta of gateway.go, PeerMessage of peer_route.go, GossipEnvelope of
-- gossip.go, RPCPacket of mesh_rpc.go, TunnelAuthPayload of tunnel.go. An int or int64 is its 64-bit
-- pattern.
pub mod RoundTrip
use secure_network.Prelude.{
  ℕ, ◌-◌, ◌^◌, ◌<◌, Bool, true, false, Option, none, some, [], Bytes, text, ltb, eqb, if◌then◌else◌,
}
use secure_network.Strings.{is_empty}
use secure_network.Strings.Base64.{encode_base64}
use secure_network.Json.{
  Json, null, bool, int, str, obj, Members, end, member, JsonText, ◌>>=◌, field, set_string,
  set_bytes, set_bool, set_uint64, set_int64, set_time, document, omit_empty, values, assign,
}

pub record ApiPayload : Type 0 where
  pub action : Bytes
  pub content : Bytes
  pub target : Bytes
  pub value : ℕ

pub record ContentMeta : Type 0 where
  pub signer : Bytes
  pub content : Bytes
  pub target : Bytes
  pub value : ℕ
  pub created_at : ℕ

pub record PeerMessage : Type 0 where
  pub id : Bytes
  pub route : Bytes
  pub payload : Bytes
  pub origin : Bytes
  pub timestamp : ℕ

pub record GossipEnvelope : Type 0 where
  pub id : Bytes
  pub service_id : Bytes
  pub payload : Bytes
  pub signature : Bytes
  pub lamport : ℕ
  pub origin : Bytes
  pub received_at : ℕ

pub record RpcPacket : Type 0 where
  pub id : Bytes
  pub method : Bytes
  pub payload : Bytes
  pub source : Bytes
  pub target : Bytes
  pub timestamp : ℕ
  pub response : Bool
  pub error : Bytes

pub record TunnelAuthPayload : Type 0 where
  pub subdomain : Bytes
  pub identity_type : Bytes
  pub identifier : Bytes
  pub credential : Bytes
  pub nonce : Bytes

-- How an int64 is printed.
abbrev pub int_of : ℕ → Json
int_of n = if ltb n (2 ^ 63) then int false n else int true (2 ^ 64 - n)

-- A byte slice is printed in base64; `omitempty` leaves out an empty one.
abbrev pub omit_empty_bytes : Bytes → Bytes → Members → Members
omit_empty_bytes name s ms = if is_empty s then ms else member name (str (encode_base64 s)) ms

abbrev pub omit_zero : Bytes → ℕ → Members → Members
omit_zero name n ms = if eqb n 0 then ms else member name (int_of n) ms

module _ (j : JsonText) where
  abbrev pub api_payload_members : ApiPayload → Members
  api_payload_members p =
      (member (text "action") (str p.action) (
        omit_empty (text "content") p.content
          (omit_empty (text "target") p.target (omit_zero (text "value") p.value end))))

  unfoldable pub marshal_api_payload : ApiPayload → Bytes
  marshal_api_payload p = j.print (obj (api_payload_members p))

  read_api_payload : Members → Option ApiPayload
  unfolding values assign
  read_api_payload ms = do
    action ← field set_string [] (text "action") ms
    content ← field set_string [] (text "content") ms
    target ← field set_string [] (text "target") ms
    value ← field set_int64 0 (text "value") ms
    some (record { action = action; content = content; target = target; value = value })

  unfoldable pub unmarshal_api_payload : Bytes → Option ApiPayload
  unfolding document read_api_payload
  unmarshal_api_payload s = do ms ← document j s; read_api_payload ms

  abbrev content_meta_members : ContentMeta → Members
  content_meta_members m =
      (member (text "signer") (str (encode_base64 m.signer)) (
        omit_empty (text "content") m.content (
          omit_empty (text "target") m.target (
            omit_zero (text "value") m.value
              (member (text "created_at") (int_of m.created_at) end)))))

  unfoldable pub marshal_content_meta : ContentMeta → Bytes
  marshal_content_meta m = j.print (obj (content_meta_members m))

  -- The struct that routeToAPI declares for "mesh_register", of which it uses the one field.
  unfoldable pub unmarshal_host_id : Bytes → Option Bytes
  unfolding document values assign
  unmarshal_host_id s = do ms ← document j s; field set_string [] (text "host_id") ms

  abbrev pub peer_message_members : PeerMessage → Members
  peer_message_members m =
      (member (text "id") (str m.id) (
        member (text "route") (str m.route) (
          member (text "payload") (str (encode_base64 m.payload)) (
            member (text "origin") (str (encode_base64 m.origin))
              (member (text "timestamp") (str (j.print_time m.timestamp)) end)))))

  unfoldable pub marshal_peer_message : PeerMessage → Bytes
  marshal_peer_message m = j.print (obj (peer_message_members m))

  read_peer_message : Members → Option PeerMessage
  unfolding values assign
  read_peer_message ms = do
    id ← field set_string [] (text "id") ms
    route ← field set_string [] (text "route") ms
    payload ← field set_bytes [] (text "payload") ms
    origin ← field set_bytes [] (text "origin") ms
    timestamp ← field (set_time j) 0 (text "timestamp") ms
    some (record {
      id = id;
      route = route;
      payload = payload;
      origin = origin;
      timestamp = timestamp;
    })

  unfoldable pub unmarshal_peer_message : Bytes → Option PeerMessage
  unfolding document read_peer_message
  unmarshal_peer_message s = do ms ← document j s; read_peer_message ms

  abbrev pub gossip_envelope_members : GossipEnvelope → Members
  gossip_envelope_members e =
      (member (text "id") (str e.id) (
        member (text "service_id") (str e.service_id) (
          member (text "payload") (str (encode_base64 e.payload)) (
            member (text "signature") (str (encode_base64 e.signature)) (
              member (text "lamport") (int false e.lamport) (
                omit_empty_bytes (text "origin") e.origin
                  (member (text "received_at") (str (j.print_time e.received_at)) end)))))))

  unfoldable pub marshal_gossip_envelope : GossipEnvelope → Bytes
  marshal_gossip_envelope e = j.print (obj (gossip_envelope_members e))

  read_gossip_envelope : Members → Option GossipEnvelope
  unfolding values assign
  read_gossip_envelope ms = do
    id ← field set_string [] (text "id") ms
    service_id ← field set_string [] (text "service_id") ms
    payload ← field set_bytes [] (text "payload") ms
    signature ← field set_bytes [] (text "signature") ms
    lamport ← field set_uint64 0 (text "lamport") ms
    origin ← field set_bytes [] (text "origin") ms
    received_at ← field (set_time j) 0 (text "received_at") ms
    some (record {
      id = id;
      service_id = service_id;
      payload = payload;
      signature = signature;
      lamport = lamport;
      origin = origin;
      received_at = received_at;
    })

  unfoldable pub unmarshal_gossip_envelope : Bytes → Option GossipEnvelope
  unfolding document read_gossip_envelope
  unmarshal_gossip_envelope s = do ms ← document j s; read_gossip_envelope ms

  abbrev pub rpc_packet_members : RpcPacket → Members
  rpc_packet_members p =
      (member (text "id") (str p.id) (
        member (text "method") (str p.method) (
          member (text "payload") (str (encode_base64 p.payload)) (
            omit_empty_bytes (text "source") p.source (
              omit_empty_bytes (text "target") p.target (
                member (text "timestamp") (int_of p.timestamp) (
                  member (text "response") (bool p.response)
                    (omit_empty (text "error") p.error end))))))))

  unfoldable pub marshal_rpc_packet : RpcPacket → Bytes
  marshal_rpc_packet p = j.print (obj (rpc_packet_members p))

  read_rpc_packet : Members → Option RpcPacket
  unfolding values assign
  read_rpc_packet ms = do
    id ← field set_string [] (text "id") ms
    method ← field set_string [] (text "method") ms
    payload ← field set_bytes [] (text "payload") ms
    source ← field set_bytes [] (text "source") ms
    target ← field set_bytes [] (text "target") ms
    timestamp ← field set_int64 0 (text "timestamp") ms
    response ← field set_bool false (text "response") ms
    error ← field set_string [] (text "error") ms
    some (record {
      id = id;
      method = method;
      payload = payload;
      source = source;
      target = target;
      timestamp = timestamp;
      response = response;
      error = error;
    })

  unfoldable pub unmarshal_rpc_packet : Bytes → Option RpcPacket
  unfolding document read_rpc_packet
  unmarshal_rpc_packet s = do ms ← document j s; read_rpc_packet ms

  abbrev pub tunnel_auth_members : TunnelAuthPayload → Members
  tunnel_auth_members t =
      (member (text "subdomain") (str t.subdomain) (
        member (text "identity_type") (str t.identity_type) (
          member (text "identifier") (str t.identifier) (
            member (text "credential") (str t.credential)
              (member (text "nonce") (str t.nonce) end)))))

  unfoldable pub marshal_tunnel_auth : TunnelAuthPayload → Bytes
  marshal_tunnel_auth t = j.print (obj (tunnel_auth_members t))

  read_tunnel_auth : Members → Option TunnelAuthPayload
  unfolding values assign
  read_tunnel_auth ms = do
    subdomain ← field set_string [] (text "subdomain") ms
    identity_type ← field set_string [] (text "identity_type") ms
    identifier ← field set_string [] (text "identifier") ms
    credential ← field set_string [] (text "credential") ms
    nonce ← field set_string [] (text "nonce") ms
    some (record {
      subdomain = subdomain;
      identity_type = identity_type;
      identifier = identifier;
      credential = credential;
      nonce = nonce;
    })

  unfoldable pub unmarshal_tunnel_auth : Bytes → Option TunnelAuthPayload
  unfolding document read_tunnel_auth
  unmarshal_tunnel_auth s = do ms ← document j s; read_tunnel_auth ms
