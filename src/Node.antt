-- ===== src/Node.antt =====
-- node.go: how the parts of a node are put together, and its operations, which pass a call on to a part. The
-- node is one that NewSecureNode returned, so that no part is nil. Making the logger and the auth provider is
-- a parameter, as is the context of a call.
pub mod Offline
mod Tests
use secure_network.Prelude.{
  ℕ, ◌*◌, Bool, true, false, Option, none, some, Bytes, is_some, not, if◌then◌else◌, Result, ok,
  err,
}
use secure_network.Json.{JsonText}
use secure_network.Wire.{GossipEnvelope}
use secure_network.Platform.{Transport, Engine, Handler}
use secure_network.Mesh.{MeshNode}
use secure_network.Mesh.Connect.{Initiator, ConnectError, connect}
use secure_network.Mesh.Keys.{KeyStore, KeyError, new_mesh_node}
use secure_network.PeerRoute.{PeerRoute, RouteError, new_peer_route, peer_count}
use secure_network.Gossip.{GossipManager, new_gossip_manager, publish}
use secure_network.Rpc.{
  RpcManager, RpcHandler, CallError, new_rpc_manager, register, notify, begin_call,
}
use secure_network.Gossip

-- The mesh node's connection is set or nil; its stream and cipher states are fields of the mesh node. The
-- other parts hold references to the peer route, and the peer route one to the mesh node.
pub record SecureNode (net : Transport) (S : Type 0) : Type 0 where
  pub mesh : MeshNode net
  pub has_conn : Bool
  pub peer_route : PeerRoute S
  pub gossip : GossipManager S
  pub rpc : RpcManager S
  pub host_id : Bytes
  pub realm : Bytes

pub data NodeError : Type 0 where
  no_engine no_logger no_auth : NodeError
  no_mesh : KeyError → NodeError

-- DefaultRPCTimeout, in nanoseconds.
abbrev pub default_rpc_timeout : ℕ
default_rpc_timeout = 15 * 1_000_000_000

module _ (net : Transport) {S : Type 0} where
  abbrev assembled :
      Bytes → Bytes → Result KeyError (MeshNode net) × S → Result NodeError (SecureNode net S) × S
  assembled realm host_id (err e, s) = (err (no_mesh e), s)
  assembled realm host_id (ok mesh, s) = (
    ok (record {
      mesh = mesh;
      has_conn = false;
      peer_route = new_peer_route;
      gossip = new_gossip_manager;
      rpc = new_rpc_manager;
      host_id = host_id;
      realm = realm;
    }),
    s,
  )

  -- NewSecureNode: whether there is an SDF engine, and whether the logger and the auth provider could be made.
  unfoldable pub new_secure_node :
      Bool
      → Bool
      → Bool
      → KeyStore S
      → Option (Bytes × Bytes)
      → Option Bytes
      → Bytes
      → Bytes
      → S
      → Result NodeError (SecureNode net S) × S
  new_secure_node has_engine has_logger has_auth store kp dbsc realm host_id s =
      if not has_engine
      then (err no_engine, s)
      else if not has_logger
      then (err no_logger, s)
      else if not has_auth
      then (err no_auth, s)
      else assembled realm host_id (new_mesh_node store net kp dbsc s)

abbrev or_mesh : {net : Transport} → MeshNode net → Option (MeshNode net) → MeshNode net
or_mesh m none = m
or_mesh m (some m') = m'

abbrev or_route_mesh :
    {net : Transport} → MeshNode net → Option (Option (MeshNode net)) → MeshNode net
or_route_mesh m none = m
or_route_mesh m (some o) = or_mesh m o

module _ {net : Transport} {S : Type 0} where
  abbrev with_mesh :
      SecureNode net S
      → MeshNode net × S × Option ConnectError
      → SecureNode net S × S × Option ConnectError
  with_mesh n (m, s, none) = (record n { mesh = m; has_conn = true }, s, none)
  with_mesh n (m, s, some e) = (record n { mesh = m }, s, some e)

  unfoldable pub connect_mesh :
      Initiator net
      → Engine S
      → Option net.Stream
      → Bytes
      → SecureNode net S
      → S
      → SecureNode net S × S × Option ConnectError
  connect_mesh noise compile stream incoming n s =
      with_mesh n (connect noise compile stream incoming n.mesh s)

  unfoldable pub is_mesh_connected : SecureNode net S → Bool
  is_mesh_connected n = n.has_conn

  pub register_rpc : Bytes → RpcHandler S → SecureNode net S → SecureNode net S
  register_rpc method h n = record n { rpc = register method h n.rpc }

  pub register_gossip : Bytes → Handler S GossipEnvelope → SecureNode net S → SecureNode net S
  register_gossip service h n = record n {
    gossip = secure_network.Gossip.register_handler service h n.gossip;
  }

  pub node_peer_count : SecureNode net S → ℕ
  node_peer_count n = peer_count n.peer_route

  module _ (j : JsonText) (sha256 : Bytes → Bytes) (now : ℕ) where
    -- BroadcastRPC and NotifyRPC
    unfoldable pub notify_rpc :
        Bytes → Bytes → SecureNode net S → SecureNode net S × Option RouteError
    notify_rpc method payload n =
        let (mesh', e) = notify net j sha256 now method payload (some n.mesh) in
        (record n { mesh = or_mesh n.mesh mesh' }, e)

    unfoldable pub publish_gossip :
        Bytes → Bytes → Bytes → SecureNode net S → SecureNode net S × Option RouteError
    publish_gossip service payload signature n =
        let (gossip', node', e) =
          publish net j sha256 now service payload signature n.gossip (some (some n.mesh)) in
        (record n { gossip = gossip'; mesh = or_route_mesh n.mesh node' }, e)

    -- CallPeer, up to the select of Call, which waits for `default_rpc_timeout`.
    unfoldable pub call_peer :
        Bytes → Bytes → Bytes → Bytes → SecureNode net S → SecureNode net S × Option CallError
    call_peer bytes target method payload n =
        let (rpc', mesh', e) =
          begin_call net j sha256 now bytes target method payload n.rpc (some n.mesh) in
        (record n { rpc = rpc'; mesh = or_mesh n.mesh mesh' }, e)
