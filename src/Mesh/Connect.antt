-- ===== src/Mesh/Connect.antt =====
-- Connect of mesh.go: the initiator's side of the handshake. The flynn/noise initiator is a parameter:
-- its WriteMessage returns cipher states, and so does its ReadMessage, whose states Connect drops.
-- That Connect closes the connection on an error is left out.
pub mod Offline
use secure_network.Prelude.{
  ℕ, ◌≡◌, refl, ap, subst, false, Option, none, some, Bytes, text, [], is_some, Result, ok, err,
  inl, inr, Bool-cases, ◌&&◌, if◌then◌else◌,
}
use secure_network.Strings.Base64.{encode_base64}
use secure_network.Framing.{FrameError, write_frame, read_frame, max_frame_size}
use secure_network.Json.{JsonText}
use secure_network.Wire.{ApiPayload, marshal_api_payload}
use secure_network.Platform.{Transport, Engine, DataInvocation, proof_of_poss}
use secure_network.Mesh.{MeshNode, connected, unavailable, send_on, send_action}
use secure_network.PeerRoute.{not_connected, send_failed, broadcast, send_to_peer}
use secure_network.PeerRoute.Sending.{send_to_peer_failed}

abbrev pub Ciphers : Transport → Type 0
Ciphers net = Option net.Cipher × Option net.Cipher

-- NewHandshakeState with the node's keys and the gateway's, then one message each way; nil cipher
-- states are `none`.
pub record Initiator (net : Transport) : Type 1 where
  pub State : Type 0
  pub start : Option State
  pub write_message : State → Option (Bytes × State × Ciphers net)
  pub read_message : State → Bytes → Option (Bytes × State × Ciphers net)

pub data ConnectError : Type 0 where
  dial_failed no_engine bad_message rejected write_failed bad_response : ConnectError
  read_failed : FrameError → ConnectError

pub initiator_script : Bytes
initiator_script = text "protocol:handshake(stage(\"initiator\") status(\"transmitting\"))"

pub initiator_invocation : Bytes → DataInvocation
initiator_invocation noise_pub = record {
  target_address = text "protocol:handshake:outbound";
  caller = encode_base64 noise_pub;
  nonce = 0;
  method = text "START_HANDSHAKE";
  profile = proof_of_poss;
  args = [];
}

module _ {net : Transport} (noise : Initiator net) where
  -- The fields are set once the response is accepted, to the states that WriteMessage returned.
  finish :
      net.Stream
      → Ciphers net
      → Option (Bytes × noise.State × Ciphers net)
      → MeshNode net
      → MeshNode net × Option ConnectError
  finish stream ciphers none m = (m, some bad_response)
  finish stream (send, recv) (some _) m =
      (record m { stream = some stream; cs_send = send; cs_recv = recv }, none)

  respond :
      net.Stream
      → noise.State
      → Ciphers net
      → Result FrameError Bytes
      → MeshNode net
      → MeshNode net × Option ConnectError
  unfolding finish
  respond stream hs ciphers (err e) m = (m, some (read_failed e))
  respond stream hs ciphers (ok resp) m = finish stream ciphers (noise.read_message hs resp) m

  flushed :
      Bytes
      → noise.State
      → Ciphers net
      → net.Stream × Option net.Fault
      → MeshNode net
      → MeshNode net × Option ConnectError
  unfolding respond
  flushed incoming hs ciphers (stream, some e) m = (m, some write_failed)
  flushed incoming hs ciphers (stream, none) m =
      respond stream hs ciphers (read_frame incoming max_frame_size).0 m

  module _ {S : Type 0} (compile : Engine S) where
    greet :
        net.Stream
        → Bytes
        → Option (Bytes × noise.State × Ciphers net)
        → MeshNode net
        → S
        → MeshNode net × S × Option ConnectError
    unfolding flushed
    greet stream incoming none m s = (m, s, some bad_message)
    greet stream incoming (some (msg, hs, ciphers)) m s =
        let (s', agrees) = compile initiator_script (initiator_invocation m.noise_pub) s in
        let (m', e) = flushed incoming hs ciphers (write_frame net.write stream msg) m in
        if agrees then (m', s', e) else (m, s', some rejected)

    initiate :
        net.Stream
        → Bytes
        → Option noise.State
        → MeshNode net
        → S
        → MeshNode net × S × Option ConnectError
    unfolding greet
    initiate stream incoming none m s = (m, s, some no_engine)
    initiate stream incoming (some hs) m s = greet stream incoming (noise.write_message hs) m s

    -- Connect, with the stream that dialling opened, if it did, and the bytes that come in on it.
    unfoldable pub connect :
        Option net.Stream → Bytes → MeshNode net → S → MeshNode net × S × Option ConnectError
    unfolding initiate
    connect none incoming m s = (m, s, some dial_failed)
    connect (some stream) incoming m s = initiate stream incoming noise.start m s
