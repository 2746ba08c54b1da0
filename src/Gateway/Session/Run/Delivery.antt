-- ===== src/Gateway/Session/Run/Delivery.antt =====
-- A node's SendAction (mesh.go) and the loop of HandleSecureStream (gateway.go) at the other end.
use secure_network.Prelude.{
  ℕ, suc, ◌+◌, ◌^◌, ◌<◌, ◌≤◌, ◌≡◌, ◌≢◌, refl, ap, ◌∙◌, Option, none, some, arith, Bytes, text,
  eq_iff, length, ◌++◌, Result, ok, err,
}
use secure_network.Framing.{read_frame, max_frame_size}
use secure_network.Framing.Laws.{IsWriter, frame}
use secure_network.Json.{JsonText, IsJsonText, IsPlain}
use secure_network.Wire.{
  ApiPayload, api_payload_members, marshal_api_payload, unmarshal_api_payload,
}
use secure_network.Platform.{Transport}
use secure_network.Mesh.{MeshNode, send_action}
use secure_network.Mesh.Delivery.{IsChannel, unmarshal_api_payload-send_action}
use secure_network.Tunnel.{Services}
use secure_network.Gateway.{Gateway, Router, Halt, route_to_api}
use secure_network.Gateway.Session.{
  TunnelModule, Session, handle_frame, handle_bytes, decrypted_frame, bind_content, still,
}
use secure_network.Gateway.Session.Run.{Ended, session_loop, after_read, after_frame}

bind_content_other : (p : ApiPayload) → p.action ≢ text "tunnel_bind" → bind_content (some p) ≡ none
bind_content_other p other = ground (arith, eq_iff p.action (text "tunnel_bind"))

module _ {net : Transport} (j : JsonText) {S : Type 0} (r : Router S) (services : Services S)
    (conn : ℕ) (clock : ℕ → ℕ) where
  -- The loop goes on with what routeToAPI left.
  abbrev pub goes_on_with :
      ℕ
      → ℕ
      → Session net
      → Bytes
      → TunnelModule
      → Result Halt (Gateway net × S)
      → Result Halt (Ended net S)
  goes_on_with fuel k x rest t (err e) = err e
  goes_on_with fuel k x rest t (ok (g, s)) =
      session_loop j r services conn clock fuel k x rest t g s

  after_frame-still :
      (next : Session net → TunnelModule → Gateway net → S → Result Halt (Ended net S))
      (x : Session net) (t : TunnelModule) (o : Result Halt (Gateway net × S)) (fuel k : ℕ)
      (rest : Bytes)
      → ((g : Gateway net) (s : S)
          → next x t g s ≡ session_loop j r services conn clock fuel k x rest t g s)
      → after_frame j r services conn clock next (still j r services x t o)
        ≡ goes_on_with fuel k x rest t o
  unfolding after_frame
  after_frame-still next x t (err e) fuel k rest same = refl
  after_frame-still next x t (ok (g, s)) fuel k rest same = same g s

  handle_bytes-route_to_api :
      (now : ℕ) (x : Session net) (d : Bytes) (b' : net.Cipher) (t : TunnelModule) (g : Gateway net)
      (s : S) (o : Option Bytes)
      → o ≡ none
      → handle_bytes j r services now conn d (record x { cs_recv = b' }) o t g s
        ≡ still j r services
            (record x { cs_recv = b' })
            t
            (route_to_api j r now x.link x.remote_key d g s)
  unfolding handle_bytes
  handle_bytes-route_to_api now x d b' t g s none is_none = refl
  handle_bytes-route_to_api now x d b' t g s (some c) is_none = absurd (ground arith)

  handle_frame-route_to_api :
      (now : ℕ) (x : Session net) (enc d : Bytes) (b' : net.Cipher) (p : ApiPayload)
      (t : TunnelModule) (g : Gateway net) (s : S)
      → net.decrypt x.cs_recv enc ≡ (some d, b')
      → unmarshal_api_payload j d ≡ some p
      → p.action ≢ text "tunnel_bind"
      → handle_frame j r services now conn x enc t g s
        ≡ still j r services
            (record x { cs_recv = b' })
            t
            (route_to_api j r now x.link x.remote_key d g s)
  unfolding handle_frame decrypted_frame handle_bytes
  handle_frame-route_to_api now x enc d b' p t g s opens parsed other =
      let no_bind = ap (λ o. bind_content o) parsed ∙ bind_content_other p other in
      rw opens (handle_bytes-route_to_api now x d b' t g s _ no_bind)

  session_loop-frame :
      (fuel k : ℕ) (x : Session net) (enc d rest : Bytes) (b' : net.Cipher) (p : ApiPayload)
      (t : TunnelModule) (g : Gateway net) (s : S)
      → read_frame (frame enc ++ rest) max_frame_size ≡ (ok enc, rest)
      → net.decrypt x.cs_recv enc ≡ (some d, b')
      → unmarshal_api_payload j d ≡ some p
      → p.action ≢ text "tunnel_bind"
      → session_loop j r services conn clock (suc fuel) k x (frame enc ++ rest) t g s
        ≡ goes_on_with fuel
            (suc k)
            (record x { cs_recv = b' })
            rest
            t
            (route_to_api j r (clock k) x.link x.remote_key d g s)
  unfolding session_loop after_read
  session_loop-frame fuel k x enc d rest b' p t g s reads opens parsed other = rw reads (
      rw (handle_frame-route_to_api (clock k) x enc d b' p t g s opens parsed other) (
        after_frame-still _ (record x { cs_recv = b' }) t
          (route_to_api j r (clock k) x.link x.remote_key d g s) fuel (suc k) rest (λ g s. refl)))

-- An action gets from a node to the router. A node with a stream and a sending cipher state that fits the
-- receiving one of a gateway's session sends an action other than tunnel_bind, with ASCII texts and not too
-- long, and SendAction returns nil: then it appended a frame to its stream, and when the gateway's loop reads
-- it, whatever follows, it hands a document that is read as the same action to routeToAPI, for the session's
-- key and link, and goes on with what follows and with a cipher state that fits the node's again. If
-- routeToAPI panics or blocks, so does the loop.
pub session_loop-send_action :
    {net : Transport} (contents : net.Stream → Bytes) (Fit : net.Cipher → net.Cipher → Type 0)
    (writer : IsWriter net.write contents) (channel : IsChannel net Fit) (j : JsonText)
    (law : IsJsonText j) {S : Type 0} (r : Router S) (services : Services S) (conn : ℕ)
    (clock : ℕ → ℕ) (w : net.Stream) (a : net.Cipher) (x : Session net) (p : ApiPayload)
    (m m' : MeshNode net)
    → IsPlain (api_payload_members j p)
    → p.value < 2 ^ 64
    → length (marshal_api_payload j p) + 16 ≤ max_frame_size
    → p.action ≢ text "tunnel_bind"
    → m.stream ≡ some w
    → m.cs_send ≡ some a
    → Fit a x.cs_recv
    → send_action net j m p ≡ (m', none)
    → (w' : net.Stream) × (f : Bytes) × (d : Bytes) × (a' : net.Cipher) × (b' : net.Cipher)
      × (m'.stream ≡ some w')
      × (m'.cs_send ≡ some a')
      × (contents w' ≡ contents w ++ f)
      × (unmarshal_api_payload j d ≡ some p)
      × Fit a' b'
      × ((fuel k : ℕ) (rest : Bytes) (t : TunnelModule) (g : Gateway net) (s : S)
          → session_loop j r services conn clock (suc fuel) k x (f ++ rest) t g s
            ≡ goes_on_with j r services conn clock fuel
                (suc k)
                (record x { cs_recv = b' })
                rest
                t
                (route_to_api j r (clock k) x.link x.remote_key d g s))
session_loop-send_action {net} contents Fit writer channel j law r services conn clock w a x p m m'
      plain value small other stream cipher fit sent =
    let (d, (w', enc, a', b', has_stream, has_cipher, appended, reads, opens, fit'), parsed) =
      unmarshal_api_payload-send_action net contents Fit writer channel j w a x.cs_recv p m m' law
        plain value small stream cipher fit sent in
    (
      w',
      frame enc,
      d,
      a',
      b',
      has_stream,
      has_cipher,
      appended,
      parsed,
      fit',
      λ fuel k rest t g s.
          session_loop-frame j r services conn clock fuel k x enc d rest b' p t g s (reads rest)
            opens parsed other,
    )
