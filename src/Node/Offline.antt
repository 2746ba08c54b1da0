-- ===== src/Node/Offline.antt =====
-- What a node of node.go can do before ConnectMesh, and after it.
use secure_network.Prelude.{
  ℕ, ◌≡◌, ap, Bool, true, false, Option, none, some, Bytes, text, arith, Result, ok, err,
}
use secure_network.Json.{JsonText}
use secure_network.Platform.{Transport, Engine}
use secure_network.Mesh.{MeshNode, connected, unavailable}
use secure_network.Mesh.Connect.{Initiator, ConnectError, connect}
use secure_network.Mesh.Connect.Offline.{WritesNoCiphers, connect-offline, send_action-offline}
use secure_network.Mesh.Keys.{KeyStore, KeyError, new_mesh_node, new_mesh_node-stream}
use secure_network.PeerRoute.{not_connected, send_failed, broadcast}
use secure_network.PeerRoute.Sending.{send_to_peer_failed}
use secure_network.Gossip.{publish, send_gossip}
use secure_network.Rpc.{send_error, notify}
use secure_network.Rpc.Offline.{begin_call_failed}
use secure_network.Node.{
  SecureNode, new_secure_node, connect_mesh, is_mesh_connected, with_mesh, assembled, notify_rpc,
  publish_gossip, call_peer,
}

connected_no_stream :
    {net : Transport} (m : MeshNode net) → m.stream ≡ none → connected net m ≡ false
unfolding connected
connected_no_stream m e = ground arith

module _ {net : Transport} {S : Type 0} (j : JsonText) (sha256 : Bytes → Bytes) (now : ℕ)
    (n : SecureNode net S) where
  -- Every way to send returns an error.
  pub record IsMute : Type 0 where
    pub rpc_fails :
        (method payload : Bytes) → (notify_rpc j sha256 now method payload n).1 ≡ some not_connected
    pub gossip_fails :
        (service payload signature : Bytes)
        → (publish_gossip j sha256 now service payload signature n).1 ≡ some not_connected
    pub call_fails :
        (bytes target method payload : Bytes)
        → (call_peer j sha256 now bytes target method payload n).1
          ≡ some (send_error (send_failed unavailable))

  offline-IsMute : connected net n.mesh ≡ false → IsMute
  unfolding notify_rpc publish_gossip call_peer notify publish send_gossip broadcast
  offline-IsMute offline = record {
    rpc_fails = λ method payload. ground arith;
    gossip_fails = λ service payload signature. ground arith;
    call_fails = λ bytes target method payload.
        ap (λ r. r.2)
          (begin_call_failed net j sha256 now bytes target method payload n.rpc (some n.mesh)
            (send_failed unavailable)
            (λ raw.
              send_to_peer_failed net j sha256 now n.mesh target (text "rpc") raw unavailable
                (λ p. send_action-offline net j n.mesh p offline)));
  }

module _ {net : Transport} {S : Type 0} (j : JsonText) (sha256 : Bytes → Bytes) (now : ℕ) where
  assembled-mesh :
      (realm host_id : Bytes) (o : Result KeyError (MeshNode net) × S) (n : SecureNode net S)
      (s' : S)
      → assembled net realm host_id o ≡ (ok n, s')
      → (n.has_conn ≡ false) × (o ≡ (ok n.mesh, s'))
  assembled-mesh realm host_id (err e, s) n s' made = absurd (ground arith)
  assembled-mesh realm host_id (ok m, s) n s' made = ground arith

  -- A node is offline until ConnectMesh: on the node that NewSecureNode returns, IsMeshConnected is false,
  -- and NotifyRPC, BroadcastRPC, PublishGossip and CallPeer return an error, whatever they are given.
  pub new_secure_node-IsMute :
      (has_engine has_logger has_auth : Bool) (store : KeyStore S) (kp : Option (Bytes × Bytes))
      (dbsc : Option Bytes) (realm host_id : Bytes) (s s' : S) (n : SecureNode net S)
      → new_secure_node net has_engine has_logger has_auth store kp dbsc realm host_id s
        ≡ (ok n, s')
      → (is_mesh_connected n ≡ false) × IsMute j sha256 now n
  unfolding new_secure_node is_mesh_connected
  new_secure_node-IsMute has_engine has_logger has_auth store kp dbsc realm host_id s s' n e =
      let (unset, made) =
        assembled-mesh realm host_id (new_mesh_node store net kp dbsc s) n s' (ground arith) in
      let no_stream = new_mesh_node-stream store net kp dbsc s s' n.mesh made in
      (unset, offline-IsMute j sha256 now n (connected_no_stream n.mesh no_stream))

  with_mesh-conn :
      (n n' : SecureNode net S) (r : MeshNode net × S × Option ConnectError) (s' : S)
      → with_mesh n r ≡ (n', s', none)
      → (n'.has_conn ≡ true) × (r ≡ (n'.mesh, s', none))
  with_mesh-conn n n' (m, s, none) s' e = ground arith
  with_mesh-conn n n' (m, s, some x) s' e = absurd (ground arith)

  -- IsMeshConnected says less than it seems to: where ConnectMesh returns nil, it is true, although the mesh
  -- node is not Connected and NotifyRPC, BroadcastRPC, PublishGossip and CallPeer still return an error. That
  -- is so for a handshake library that returns no cipher states with the first message of a pattern of two.
  pub is_mesh_connected-connect_mesh :
      (noise : Initiator net) (compile : Engine S) (stream : net.Stream) (incoming : Bytes)
      (n n' : SecureNode net S) (s s' : S)
      → WritesNoCiphers noise
      → connect_mesh noise compile (some stream) incoming n s ≡ (n', s', none)
      → (is_mesh_connected n' ≡ true) × (connected net n'.mesh ≡ false) × IsMute j sha256 now n'
  unfolding connect_mesh is_mesh_connected
  is_mesh_connected-connect_mesh noise compile stream incoming n n' s s' law e =
      let (has, connects) =
        with_mesh-conn n n' (connect noise compile (some stream) incoming n.mesh s) s' e in
      let offline =
        connect-offline noise compile stream incoming n.mesh n'.mesh s s' law connects in
      (has, offline, offline-IsMute j sha256 now n' offline)
