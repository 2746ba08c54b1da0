-- ===== src/Mesh.antt =====
-- mesh.go: the mesh node's session and SendAction; Connect and listenLoop are in the modules below.
pub mod Connect
pub mod Delivery
pub mod Sample
pub mod Listen
pub mod Keys
pub mod Attestation
mod Tests
use secure_network.Prelude.{Bool, ◌&&◌, Option, none, some, Bytes, is_some}
use secure_network.Json.{JsonText}
use secure_network.Wire.{ApiPayload, marshal_api_payload}
use secure_network.Framing.{write_frame}
use secure_network.Platform.{Transport}

-- The fields that change, and the public key. The stream and the cipher states are nil before Connect.
pub record MeshNode (net : Transport) : Type 0 where
  pub noise_pub : Bytes
  pub stream : Option net.Stream
  pub cs_send : Option net.Cipher
  pub cs_recv : Option net.Cipher

pub data SendError : Type 0 where
  unavailable cipher_fault write_fault : SendError

module _ (net : Transport) where
  unfoldable pub connected : MeshNode net → Bool
  connected m = is_some m.stream && is_some m.cs_send

  abbrev fault_of : Option net.Fault → Option SendError
  fault_of none = none
  fault_of (some e) = some write_fault

  -- WriteFrame of what Encrypt gave.
  flush : MeshNode net → net.Stream → Option Bytes × net.Cipher → MeshNode net × Option SendError
  flush m stream (none, cs) = (record m { cs_send = some cs }, some cipher_fault)
  flush m stream (some encrypted, cs) =
      let (stream', e) = write_frame net.write stream encrypted in
      (record m { stream = some stream'; cs_send = some cs }, fault_of e)

  send_on :
      Bytes → MeshNode net → Option net.Stream → Option net.Cipher → MeshNode net × Option SendError
  unfolding flush
  send_on data_bytes m (some stream) (some cs) = flush m stream (net.encrypt cs data_bytes)
  send_on data_bytes m _ _ = (m, some unavailable)

  unfoldable pub send_action :
      JsonText → MeshNode net → ApiPayload → MeshNode net × Option SendError
  unfolding send_on
  send_action j m payload = send_on (marshal_api_payload j payload) m m.stream m.cs_send
