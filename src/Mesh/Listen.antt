-- ===== src/Mesh/Listen.antt =====
-- listenLoop and handleHeartbeat of mesh.go. The RPC manager that SetRPCManager set sends through a
-- peer route with this node. An inbound handler's error is dropped. rsa.SignPKCS1v15 reads the fields
-- of its key, which handleHeartbeat passes as nil.
pub mod Stream
use secure_network.Prelude.{
  ℕ, ◌≡◌, ◌≢◌, ap, ◌∙◌, List, [], ◌∷◌, Option, none, some, arith, Bytes, text, ◌==◌, eq_iff,
  if◌then◌else◌, Map, lookup, insert, Result, ok, err,
}
use secure_network.Json.{JsonText}
use secure_network.Wire.{ApiPayload, unmarshal_api_payload}
use secure_network.Platform.{Transport, Engine}
use secure_network.Mesh.{MeshNode}
use secure_network.Rpc.{RpcManager}
use secure_network.Rpc

pub data Panic : Type 0 where
  nil_cipher nil_key : Panic

pub record Node (net : Transport) (S : Type 0) : Type 0 where
  pub mesh : MeshNode net
  pub rpc : Option (RpcManager S)
  pub inbound_handlers : Map (Bytes → S → S)

unfoldable pub register_inbound :
    {net : Transport} {S : Type 0} → Bytes → (Bytes → S → S) → Node net S → Node net S
register_inbound action handler n = record n {
  inbound_handlers = insert action handler n.inbound_handlers;
}

abbrev or_node {ℓ} : {A : Type ℓ} → A → Option A → A
or_node m none = m
or_node m (some m') = m'

module _ (net : Transport) (j : JsonText) (sha256 : Bytes → Bytes) {S : Type 0} (compile : Engine S)
    (now : ℕ) where
  -- The case "rpc".
  to_rpc : Bytes → Node net S → Option (RpcManager S) → S → Node net S × S
  to_rpc content n none s = (n, s)
  to_rpc content n (some manager) s =
      let (manager', mesh', s') =
        secure_network.Rpc.handle_ingress net j sha256 compile now content manager (some n.mesh)
          s in
      (record n { mesh = or_node n.mesh mesh'; rpc = some manager' }, s')

  to_handler : Bytes → Option (Bytes → S → S) → S → S
  to_handler content none s = s
  to_handler content (some handler) s = handler content s

  switch : ApiPayload → Node net S → S → Result Panic (Node net S × S)
  unfolding to_rpc to_handler
  switch req n s =
      if req.action == text "dbsc_heartbeat_req"
      then err nil_key
      else if req.action == text "rpc"
      then ok (to_rpc req.content n n.rpc s)
      else ok (n, to_handler req.content (lookup req.action n.inbound_handlers) s)

  abbrev switch_on : Option ApiPayload → Node net S → S → Result Panic (Node net S × S)
  switch_on none n s = ok (n, s)
  switch_on (some req) n s = switch req n s

  opened : Option Bytes × net.Cipher → Node net S → S → Result Panic (Node net S × S)
  unfolding switch
  opened (none, cs) n s = ok (record n { mesh = record n.mesh { cs_recv = some cs } }, s)
  opened (some d, cs) n s =
      switch_on (unmarshal_api_payload j d)
        (record n { mesh = record n.mesh { cs_recv = some cs } }) s

  received : Bytes → Node net S → Option net.Cipher → S → Result Panic (Node net S × S)
  unfolding opened
  received frame n none s = err nil_cipher
  received frame n (some cs) s = opened (net.decrypt cs frame) n s

  -- The loop's body, on a frame that was read.
  unfoldable pub listen_frame : Bytes → Node net S → S → Result Panic (Node net S × S)
  unfolding received
  listen_frame frame n s = received frame n n.mesh.cs_recv s

module _ (net : Transport) (j : JsonText) (sha256 : Bytes → Bytes) {S : Type 0}
    (compile : Engine S) where
  -- The loop, on the frames that ReadFrame returns, each with its time.
  unfoldable pub listen_loop : List (ℕ × Bytes) → Node net S → S → Result Panic (Node net S × S)
  listen_loop [] n s = ok (n, s)
  listen_loop ((now, frame) ∷ frames) n s = elim (listen_frame net j sha256 compile now frame n s) [
    | err e ↦ err e
    | ok (n', s') ↦ listen_loop frames n' s'
  ]

module _ (net : Transport) (j : JsonText) (sha256 : Bytes → Bytes) {S : Type 0} (compile : Engine S)
    (now : ℕ) (frame : Bytes) (n : Node net S) (s : S) where
  abbrev pub with_cipher : net.Cipher → Node net S
  with_cipher cs = record n { mesh = record n.mesh { cs_recv = some cs } }

  pub listen_frame_nil :
      n.mesh.cs_recv ≡ none → listen_frame net j sha256 compile now frame n s ≡ err nil_cipher
  unfolding listen_frame
  listen_frame_nil nil = ap (λ c. received net j sha256 compile now frame n c s) nil

  listen_frame-opened :
      (cs cs' : net.Cipher) (d : Option Bytes)
      → n.mesh.cs_recv ≡ some cs
      → net.decrypt cs frame ≡ (d, cs')
      → listen_frame net j sha256 compile now frame n s
        ≡ opened net j sha256 compile now (d, cs') n s
  unfolding listen_frame
  listen_frame-opened cs cs' d has opens =
      ap (λ c. received net j sha256 compile now frame n c s) has
      ∙ ap (λ o. opened net j sha256 compile now o n s) opens

  listen_frame-switch :
      (cs cs' : net.Cipher) (d : Bytes) (o : Option ApiPayload)
      → n.mesh.cs_recv ≡ some cs
      → net.decrypt cs frame ≡ (some d, cs')
      → unmarshal_api_payload j d ≡ o
      → listen_frame net j sha256 compile now frame n s
        ≡ switch_on net j sha256 compile now o (with_cipher cs') s
  unfolding opened
  listen_frame-switch cs cs' d o has opens parsed =
      listen_frame-opened cs cs' (some d) has opens
      ∙ ap (λ x. switch_on net j sha256 compile now x (with_cipher cs') s) parsed

  switch_rpc :
      (cs : net.Cipher) (req : ApiPayload) (manager manager' : RpcManager S) (m' : MeshNode net)
      (s' : S)
      → req.action ≡ text "rpc"
      → n.rpc ≡ some manager
      → secure_network.Rpc.handle_ingress net j sha256 compile now req.content manager
          (some (with_cipher cs).mesh)
          s
        ≡ (manager', some m', s')
      → switch net j sha256 compile now req (with_cipher cs) s
        ≡ ok (record n { mesh = m'; rpc = some manager' }, s')
  unfolding switch to_rpc
  switch_rpc cs req manager manager' m' s' e found ran =
      ground (arith, eq_iff req.action (text "dbsc_heartbeat_req"), eq_iff req.action (text "rpc"))
      ∙ ap
          (λ (r : Option (RpcManager S)).
            ok (to_rpc net j sha256 compile now req.content (with_cipher cs) r s))
          found
      ∙ ap
          (λ (w : RpcManager S × Option (MeshNode net) × S).
            ok (record n { mesh = or_node (with_cipher cs).mesh w.1; rpc = some w.0 }, w.2))
          ran

  -- What the loop does with a frame. A node without a receiving cipher state panics. A frame that
  -- cannot be decrypted, or whose content is no action, is skipped; the heartbeat's request panics; an
  -- "rpc" action goes to the RPC manager, with this node to answer through; any other goes to the
  -- handler that is registered for it, if there is one.
  pub listen_frame_cases :
      let result = listen_frame net j sha256 compile now frame n s in
      (n.mesh.cs_recv ≡ none → result ≡ err nil_cipher)
      × ((cs cs' : net.Cipher)
          → n.mesh.cs_recv ≡ some cs
          → net.decrypt cs frame ≡ (none, cs')
          → result ≡ ok (with_cipher cs', s))
      × ((cs cs' : net.Cipher) (d : Bytes)
          → n.mesh.cs_recv ≡ some cs
          → net.decrypt cs frame ≡ (some d, cs')
          → unmarshal_api_payload j d ≡ none
          → result ≡ ok (with_cipher cs', s))
      × ((cs cs' : net.Cipher) (d : Bytes) (req : ApiPayload)
          → n.mesh.cs_recv ≡ some cs
          → net.decrypt cs frame ≡ (some d, cs')
          → unmarshal_api_payload j d ≡ some req
          → (req.action ≡ text "dbsc_heartbeat_req" → result ≡ err nil_key)
            × ((manager manager' : RpcManager S) (m' : MeshNode net) (s' : S)
                → req.action ≡ text "rpc"
                → n.rpc ≡ some manager
                → secure_network.Rpc.handle_ingress net j sha256 compile now req.content manager
                    (some (with_cipher cs').mesh)
                    s
                  ≡ (manager', some m', s')
                → result ≡ ok (record n { mesh = m'; rpc = some manager' }, s'))
            × (req.action ≢ text "dbsc_heartbeat_req"
                → req.action ≢ text "rpc"
                → lookup req.action n.inbound_handlers ≡ none
                → result ≡ ok (with_cipher cs', s))
            × ((handler : Bytes → S → S)
                → req.action ≢ text "dbsc_heartbeat_req"
                → req.action ≢ text "rpc"
                → lookup req.action n.inbound_handlers ≡ some handler
                → result ≡ ok (with_cipher cs', handler req.content s)))
  unfolding listen_frame switch to_rpc opened
  listen_frame_cases = (
    listen_frame_nil,
    λ cs cs' has closed. listen_frame-opened cs cs' none has closed,
    λ cs cs' d has opens bad. listen_frame-switch cs cs' d none has opens bad,
    λ cs cs' d req has opens parsed.
        let step = listen_frame-switch cs cs' d (some req) has opens parsed in
        let beat = eq_iff req.action (text "dbsc_heartbeat_req") in
        let is_rpc = eq_iff req.action (text "rpc") in
        (
          λ e. step ∙ ground (arith, beat),
          λ manager manager' m' s' e found ran.
              step ∙ switch_rpc cs' req manager manager' m' s' e found ran,
          λ other other' missing. step ∙ ground (arith, beat, is_rpc),
          λ handler other other' found. step ∙ ground (arith, beat, is_rpc),
        ),
  )
