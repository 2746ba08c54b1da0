-- ===== src/Mesh/Connect/Offline.antt =====
-- What Connect leaves: a node that is not connected.
use secure_network.Prelude.{
  ℕ, ◌≡◌, refl, ap, subst, false, Option, none, some, Bytes, is_some, Result, ok, err, inl, inr,
  Bool-cases, ◌&&◌,
}
use secure_network.Framing.{FrameError, write_frame, read_frame, max_frame_size}
use secure_network.Json.{JsonText}
use secure_network.Wire.{ApiPayload, marshal_api_payload}
use secure_network.Platform.{Transport, Engine}
use secure_network.Mesh.{MeshNode, connected, unavailable, send_on, send_action}
use secure_network.PeerRoute.{not_connected, send_failed, broadcast, send_to_peer}
use secure_network.PeerRoute.Sending.{send_to_peer_failed}
use secure_network.Mesh.Connect.{
  Ciphers, Initiator, ConnectError, initiator_script, initiator_invocation, finish, respond,
  flushed, greet, initiate, connect,
}

module _ {net : Transport} (noise : Initiator net) where
  -- The pattern has two messages, and flynn/noise returns cipher states with the last one alone.
  abbrev pub WritesNoCiphers : Type 0
  WritesNoCiphers =
      (hs hs' : noise.State) (msg : Bytes) (ciphers : Ciphers net)
      → noise.write_message hs ≡ some (msg, hs', ciphers)
      → ciphers ≡ (none, none)

  -- Where there was no error, the node is not connected and has no cipher state for receiving.
  abbrev IsOffline : MeshNode net → Option ConnectError → Type 0
  IsOffline m (some e) = Unit
  IsOffline m none = (connected net m ≡ false) × (m.cs_recv ≡ none)

  finish-IsOffline :
      (stream : net.Stream) (ciphers : Ciphers net) (o : Option (Bytes × noise.State × Ciphers net))
      (m : MeshNode net)
      → ciphers ≡ (none, none)
      → let (m', e) = finish noise stream ciphers o m in IsOffline m' e
  unfolding finish connected
  finish-IsOffline stream ciphers none m nil = tt
  finish-IsOffline stream (send, recv) (some x) m nil =
      (ap (λ (c : Ciphers net). is_some c.0) nil, ap (λ (c : Ciphers net). c.1) nil)

  respond-IsOffline :
      (stream : net.Stream) (hs : noise.State) (ciphers : Ciphers net)
      (frame : Result FrameError Bytes) (m : MeshNode net)
      → ciphers ≡ (none, none)
      → let (m', e) = respond noise stream hs ciphers frame m in IsOffline m' e
  unfolding respond
  respond-IsOffline stream hs ciphers (err e) m nil = tt
  respond-IsOffline stream hs ciphers (ok resp) m nil =
      finish-IsOffline stream ciphers (noise.read_message hs resp) m nil

  flushed-IsOffline :
      (incoming : Bytes) (hs : noise.State) (ciphers : Ciphers net)
      (written : net.Stream × Option net.Fault) (m : MeshNode net)
      → ciphers ≡ (none, none)
      → let (m', e) = flushed noise incoming hs ciphers written m in IsOffline m' e
  unfolding flushed
  flushed-IsOffline incoming hs ciphers (stream, some e) m nil = tt
  flushed-IsOffline incoming hs ciphers (stream, none) m nil =
      respond-IsOffline stream hs ciphers (read_frame incoming max_frame_size).0 m nil

  module _ {S : Type 0} (compile : Engine S) (stream : net.Stream) (incoming : Bytes) where
    greet-IsOffline :
        (o : Option (Bytes × noise.State × Ciphers net)) (m : MeshNode net) (s : S)
        → ((hs : noise.State) (msg : Bytes) (ciphers : Ciphers net)
            → o ≡ some (msg, hs, ciphers)
            → ciphers ≡ (none, none))
        → let (m', s', e) = greet noise compile stream incoming o m s in IsOffline m' e
    unfolding greet
    greet-IsOffline none m s nil = tt
    greet-IsOffline (some (msg, hs, ciphers)) m s nil =
        elim (Bool-cases (compile initiator_script (initiator_invocation m.noise_pub) s).1) [
          | inl agrees ↦ rw agrees (
              flushed-IsOffline incoming hs ciphers (write_frame net.write stream msg) m
                (nil hs msg ciphers refl))
          | inr refuses ↦ rw refuses tt
        ]

    initiate-IsOffline :
        (o : Option noise.State) (m : MeshNode net) (s : S)
        → WritesNoCiphers
        → let (m', s', e) = initiate noise compile stream incoming o m s in IsOffline m' e
    unfolding initiate
    initiate-IsOffline none m s law = tt
    initiate-IsOffline (some hs) m s law =
        greet-IsOffline (noise.write_message hs) m s (λ hs' msg ciphers. law hs hs' msg ciphers)

  module _ {S : Type 0} (compile : Engine S) (stream : net.Stream) (incoming : Bytes)
      (m m' : MeshNode net) (s s' : S) (law : WritesNoCiphers)
      (connects : connect noise compile (some stream) incoming m s ≡ (m', s', none)) where
    connect-IsOffline : IsOffline m' none
    unfolding connect
    connect-IsOffline =
        subst (λ (x : MeshNode net × S × Option ConnectError). IsOffline x.0 x.2) connects
          (initiate-IsOffline compile stream incoming noise.start m s law)

    pub connect-offline : connected net m' ≡ false
    connect-offline = connect-IsOffline.0

    pub connect-no_receiver : m'.cs_recv ≡ none
    connect-no_receiver = connect-IsOffline.1

send_on-offline :
    (net : Transport) (data_bytes : Bytes) (m : MeshNode net) (a : Option net.Stream)
    (b : Option net.Cipher)
    → (is_some a && is_some b) ≡ false
    → send_on net data_bytes m a b ≡ (m, some unavailable)
unfolding send_on
send_on-offline net data_bytes m none b off = refl
send_on-offline net data_bytes m (some a) none off = refl
send_on-offline net data_bytes m (some a) (some b) off = cc

pub send_action-offline :
    (net : Transport) (j : JsonText) (m : MeshNode net) (p : ApiPayload)
    → connected net m ≡ false
    → send_action net j m p ≡ (m, some unavailable)
unfolding send_action connected
send_action-offline net j m p off =
    send_on-offline net (marshal_api_payload j p) m m.stream m.cs_send off

-- Connect never connects: it keeps the cipher states of its first message, which are nil for a
-- message that does not complete the handshake, and drops those that the gateway's answer completes.
-- So where it returns nil, the node is not Connected, and Broadcast and SendToPeer return an error
-- and send nothing.
pub broadcast-connect :
    {net : Transport} (noise : Initiator net) {S : Type 0} (compile : Engine S) (j : JsonText)
    (sha256 : Bytes → Bytes) (now : ℕ) (stream : net.Stream) (incoming peer route payload : Bytes)
    (m m' : MeshNode net) (s s' : S)
    → WritesNoCiphers noise
    → connect noise compile (some stream) incoming m s ≡ (m', s', none)
    → (connected net m' ≡ false)
      × (broadcast net j sha256 now (some m') route payload ≡ (some m', some not_connected))
      × (send_to_peer net j sha256 now (some m') peer route payload
          ≡ (some m', some (send_failed unavailable)))
unfolding broadcast
broadcast-connect {net} noise compile j sha256 now stream incoming peer route payload m m' s s' law
      e =
    let offline = connect-offline noise compile stream incoming m m' s s' law e in
    (
      offline,
      rw offline refl,
      send_to_peer_failed net j sha256 now m' peer route payload unavailable
          (λ p. send_action-offline net j m' p offline),
    )
