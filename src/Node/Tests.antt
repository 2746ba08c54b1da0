-- ===== src/Node/Tests.antt =====
-- The theorems on node.go at a concrete node.
use secure_network.Prelude.{
  ℕ, ◌+◌, Bool, ◌≡◌, ◌++◌, refl, true, false, [], ◌∷◌, none, some, Bytes, text,
}
use secure_network.Framing.{read_frame, write_frame}
use secure_network.Json.Sample.{sample}
use secure_network.Platform.{Transport, Engine}
use secure_network.Mesh.{MeshNode, connected}
use secure_network.Mesh.Connect.{Initiator, connect}
use secure_network.Mesh.Connect.Offline.{WritesNoCiphers}
use secure_network.Mesh.Keys.{KeyStore}
use secure_network.PeerRoute.{new_peer_route}
use secure_network.Gossip.{new_gossip_manager}
use secure_network.Rpc.{new_rpc_manager}
use secure_network.Node.{SecureNode, connect_mesh, is_mesh_connected}
use secure_network.Node.Offline.{IsMute, is_mesh_connected-connect_mesh}

abbrev net : Transport
net = record {
  Stream = Bytes;
  Fault = Unit {0};
  write = λ w p. (w ++ p, none);
  Cipher = ℕ;
  encrypt = λ c p. (some p, c + 1);
  decrypt = λ c p. (some p, c + 1);
}

abbrev agree : Engine ℕ
agree script tx s = (s, true)

-- The second message completes the handshake.
abbrev initiator : Initiator net
initiator = record {
  State = Unit {0};
  start = some tt;
  write_message = λ h. some (text "hello", tt, (none, none));
  read_message = λ h m. some ([], tt, (some 1, some 2));
}

initiator-WritesNoCiphers : WritesNoCiphers initiator
initiator-WritesNoCiphers hs hs' msg ciphers e = cc

-- Every key is there.
abbrev store : KeyStore ℕ
store = record {
  get = λ key s. some (text "k");
  begin = λ s. s;
  put = λ key v s. (s, true);
  commit = λ s. (s, true);
}

abbrev node : MeshNode net → Bool → SecureNode net ℕ
node mesh conn = record {
  mesh = mesh;
  has_conn = conn;
  peer_route = new_peer_route;
  gossip = new_gossip_manager;
  rpc = new_rpc_manager;
  host_id = text "h";
  realm = text "r";
}

abbrev new_node : MeshNode net
new_node = record { noise_pub = text "k"; stream = none; cs_send = none; cs_recv = none }

abbrev after_connect : MeshNode net
after_connect = record new_node { stream = some (0 ∷ 0 ∷ 0 ∷ 5 ∷ text "hello") }

is_mesh_connected-connect_mesh_example :
    (is_mesh_connected (node after_connect true) ≡ true)
    × (connected net after_connect ≡ false)
    × IsMute sample (λ b. b) 9 (node after_connect true)
unfolding connect_mesh connect read_frame write_frame
is_mesh_connected-connect_mesh_example =
    is_mesh_connected-connect_mesh sample (λ b. b) 9 initiator agree [] (0 ∷ 0 ∷ 0 ∷ 2 ∷ text "hi")
      (node new_node false) (node after_connect true) 0 0 initiator-WritesNoCiphers refl
