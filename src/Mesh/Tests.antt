-- ===== src/Mesh/Tests.antt =====
-- The mesh node's theorems at concrete nodes.
use secure_network.Prelude.{
  ℕ, ◌+◌, ◌≡◌, ◌≢◌, refl, true, [], ◌∷◌, ◌++◌, Option, none, some, Bytes, text, ◌==◌, lookup, ok,
  err,
}
use secure_network.Strings.{to_lower}
use secure_network.Json.Sample.{sample, sample_print, sample_parse}
use secure_network.Wire.{ApiPayload, marshal_api_payload, unmarshal_api_payload}
use secure_network.Platform.{Transport, Engine}
use secure_network.Mesh.{MeshNode}
use secure_network.Rpc.{RpcManager}
use secure_network.Rpc
use secure_network.Mesh.Connect.{Initiator, connect}
use secure_network.Mesh.Connect.Offline.{WritesNoCiphers}
use secure_network.Framing.{max_frame_size}
use secure_network.Mesh.Listen.{
  Node, nil_cipher, nil_key, listen_frame, listen_loop, listen_frame_cases,
}

abbrev pub wire : Transport
wire = record {
  Stream = Bytes;
  Fault = Unit {0};
  write = λ w p. (w ++ p, none);
  Cipher = ℕ;
  encrypt = λ c p. (some p, c + 1);
  decrypt = λ c p. (some p, c + 1);
}

abbrev pub agrees : Engine ℕ
agrees script tx s = (s, true)

-- The second message completes the handshake.
abbrev pub initiator : Initiator wire
initiator = record {
  State = Unit {0};
  start = some tt;
  write_message = λ h. some (text "hello", tt, (none, none));
  read_message = λ h m. some ([], tt, (some 1, some 2));
}

pub initiator-WritesNoCiphers : WritesNoCiphers initiator
initiator-WritesNoCiphers hs hs' msg ciphers e = cc

abbrev pub new_node : MeshNode wire
new_node = record { noise_pub = text "k"; stream = none; cs_send = none; cs_recv = none }

abbrev pub after_connect : MeshNode wire
after_connect = record new_node { stream = some (0 ∷ 0 ∷ 0 ∷ 5 ∷ text "hello") }

connected_without_error :
    connect initiator agrees (some []) (0 ∷ 0 ∷ 0 ∷ 2 ∷ text "hi") new_node 0
    ≡ (after_connect, 0, none)
unfolding connect secure_network.Framing.read_frame secure_network.Framing.write_frame
connected_without_error = refl

abbrev pub node : Node wire ℕ
node = record {
  mesh = record new_node { cs_recv = some 5 };
  rpc = none;
  inbound_handlers = (text "ssh", λ content s. s + 1) ∷ [];
}

abbrev pub ssh : ApiPayload
ssh = record { action = text "ssh"; content = text "x"; target = []; value = 0 }

ssh_parses : unmarshal_api_payload sample (marshal_api_payload sample ssh) ≡ some ssh
unfolding unmarshal_api_payload marshal_api_payload sample_print sample_parse to_lower ◌==◌
ssh_parses = refl

listen_loop_test :
    listen_loop wire sample
      (λ b. b)
      agrees
      ((1, marshal_api_payload sample ssh) ∷ (2, marshal_api_payload sample ssh) ∷ [])
      node
      0
    ≡ ok (record node { mesh = record new_node { cs_recv = some 7 } }, 2)
unfolding listen_loop listen_frame unmarshal_api_payload marshal_api_payload sample_print
    sample_parse to_lower lookup ◌==◌
listen_loop_test = refl

listen_frame_cases_example :
    let result =
      listen_frame wire sample (λ b. b) agrees 9 (marshal_api_payload sample ssh) node 0 in
    let after = λ (cs : ℕ). record node { mesh = record new_node { cs_recv = some cs } } in
    (◌≡◌ {A = Option ℕ} (some 5) none → result ≡ err nil_cipher)
    × ((cs cs' : ℕ)
        → ◌≡◌ {A = Option ℕ} (some 5) (some cs)
        → ◌≡◌ {A = Option Bytes × ℕ} (some (marshal_api_payload sample ssh), cs + 1) (none, cs')
        → result ≡ ok (after cs', 0))
    × ((cs cs' : ℕ) (d : Bytes)
        → ◌≡◌ {A = Option ℕ} (some 5) (some cs)
        → ◌≡◌ {A = Option Bytes × ℕ} (some (marshal_api_payload sample ssh), cs + 1) (some d, cs')
        → unmarshal_api_payload sample d ≡ none
        → result ≡ ok (after cs', 0))
    × ((cs cs' : ℕ) (d : Bytes) (req : ApiPayload)
        → ◌≡◌ {A = Option ℕ} (some 5) (some cs)
        → ◌≡◌ {A = Option Bytes × ℕ} (some (marshal_api_payload sample ssh), cs + 1) (some d, cs')
        → unmarshal_api_payload sample d ≡ some req
        → (req.action ≡ text "dbsc_heartbeat_req" → result ≡ err nil_key)
          × ((manager manager' : RpcManager ℕ) (m' : MeshNode wire) (s' : ℕ)
              → req.action ≡ text "rpc"
              → ◌≡◌ {A = Option (RpcManager ℕ)} none (some manager)
              → secure_network.Rpc.handle_ingress wire sample
                  (λ b. b)
                  agrees
                  9
                  req.content
                  manager
                  (some (after cs').mesh)
                  0
                ≡ (manager', some m', s')
              → result ≡ ok (record node { mesh = m'; rpc = some manager' }, s'))
          × (req.action ≢ text "dbsc_heartbeat_req"
              → req.action ≢ text "rpc"
              → lookup req.action node.inbound_handlers ≡ none
              → result ≡ ok (after cs', 0))
          × ((handler : Bytes → ℕ → ℕ)
              → req.action ≢ text "dbsc_heartbeat_req"
              → req.action ≢ text "rpc"
              → lookup req.action node.inbound_handlers ≡ some handler
              → result ≡ ok (after cs', handler req.content 0)))
listen_frame_cases_example =
    listen_frame_cases wire sample (λ b. b) agrees 9 (marshal_api_payload sample ssh) node 0
