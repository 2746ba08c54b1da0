-- ===== src/Gateway/Session/Lifetime.antt =====
-- How a session of the gateway begins, is kept alive and ends.
use secure_network.Prelude.{
  ℕ, ◌+◌, ◌<◌, ◌≡◌, ◌≢◌, ◌↔◌, refl, ◌∙◌, true, false, not, Option, none, some, arith, Bytes, text,
  ◌==◌, eq_iff, if◌then◌else◌, lookup, insert, lookup-insert_self, lookup-delete, lookup-retain,
  lookup-insert_ne, IsDistinct, Result, ok, err, Bool-cases, inl, inr,
}
use secure_network.Strings.{has_prefix}
use secure_network.Framing.{FrameError, read_frame, max_frame_size, write_frame}
use secure_network.Json.{JsonText}
use secure_network.Wire.{ApiPayload, unmarshal_api_payload}
use secure_network.Platform.{Transport, Engine}
use secure_network.Tunnel.{TunnelError, Services, Tunnels, register_tunnel}
use secure_network.Gateway.{
  Router, Responder, Gateway, HostPeer, perform, unix, resource_of, clear_host_sessions,
  route_to_api,
}
use secure_network.Gateway.Routing.{route_to_api_cases}
use secure_network.Gateway.Session.{
  Session, handshake_script, handshake_invocation, returned, closes, tunnel_manager, open_session,
  greeted, answered, established, first_frame, end_session, handle_frame, decrypted_frame,
  handle_bytes, deny_tunnel, bound, monitor_heartbeat, is_stale, challenged,
}

-- The end of a session takes down its key's active session and the host sessions of its key, and
-- leaves those of the other keys; the next tick of its heartbeat closes the stream.
pub end_session-clears :
    {net : Transport} (j : JsonText) (key : Bytes) (g : Gateway net) (now link : ℕ)
    (challenge : Bytes)
    → IsDistinct g.host_sessions
    → let g' = end_session key g in
      ((k : Bytes)
        → lookup k g'.active_sessions ≡ (if key == k then none else lookup k g.active_sessions))
      × ((host : Bytes) (peer : HostPeer)
          → lookup host g.host_sessions ≡ some peer
          → lookup host g'.host_sessions ≡ (if peer.signer == key then none else some peer))
      × ((host : Bytes) → lookup host g.host_sessions ≡ none → lookup host g'.host_sessions ≡ none)
      × (monitor_heartbeat j now challenge link key g' ≡ (g', closes))
unfolding end_session clear_host_sessions monitor_heartbeat is_stale
end_session-clears j key g now link challenge distinct =
    let kept = λ (host : Bytes).
      lookup-retain (λ (peer : HostPeer). not (peer.signer == key)) host g.host_sessions distinct in
    let gone = lookup-delete key key g.active_sessions in
    (
      λ k. lookup-delete key k g.active_sessions,
      λ host peer found. ground (arith, kept host),
      λ host missing. ground (arith, kept host),
      ground (arith, gone, eq_iff key key),
    )

-- A heartbeat response that the policy engine allows keeps its session for 180 seconds: after
-- routeToAPI handled one at the time `t`, a tick closes the stream exactly from the 181st second on.
-- The action has no protocol handler and its target names no host.
pub monitor_heartbeat-route_to_api :
    {net : Transport} (j : JsonText) {S : Type 0} (r : Router S) (t link : ℕ)
    (signer payload challenge : Bytes) (g : Gateway net) (s : S) (req : ApiPayload)
    → unmarshal_api_payload j payload ≡ some req
    → req.action ≡ text "dbsc_heartbeat_resp"
    → has_prefix req.target (text "host:") ≡ false
    → lookup req.action r.protocol_handlers ≡ none
    → r.evaluate signer req.action (resource_of req.action req.target) req.target ≡ true
    → (g' : Gateway net) × (route_to_api j r t link signer payload g s ≡ ok (g', s))
      × ((now : ℕ)
          → ((monitor_heartbeat j now challenge link signer g').1 ≡ closes)
            ↔ (unix t + 180 < unix now))
unfolding perform monitor_heartbeat is_stale challenged
monitor_heartbeat-route_to_api {net} j r t link signer payload challenge g s req parsed beat local
      unhandled allows =
    let g' : Gateway net = record g {
      active_sessions = insert signer (unix t) g.active_sessions;
    } in
    let found = lookup-insert_self signer (unix t) g.active_sessions in
    (
      g',
      (route_to_api_cases j r t link signer payload g s req parsed (rw beat (λ e. ground arith))).3
            allows (λ to_host. cc) unhandled
          ∙ rw local (
              rw beat
                (ground (arith, eq_iff (text "dbsc_heartbeat_resp") (text "dbsc_heartbeat_resp")))),
      λ now. ground (arith, found),
    )

module _ {net : Transport} {S : Type 0} (r : Router S) (compile : Engine S) (now link : ℕ)
    (g : Gateway net) (s : S) where
  -- What opening a session may leave of the gateway, with the session, if there is one.
  abbrev pub Starts : Gateway net × Option (Session net) × S → Type 0
  Starts (g', none, s') = g' ≡ g
  Starts (g', some x, s') =
      (r.has_permission x.remote_key (text "network:connect") ≡ true)
      × ((compile handshake_script (handshake_invocation now x.remote_key) s).1 ≡ true)
      × (x.link ≡ link)
      × (lookup x.remote_key g'.active_sessions ≡ some (unix now))
      × ((k : Bytes) → x.remote_key ≢ k → lookup k g'.active_sessions ≡ lookup k g.active_sessions)
      × (g'.host_sessions ≡ g.host_sessions)
      × (g'.bus ≡ g.bus)

  established-Starts :
      (key : Bytes) (send recv : net.Cipher) (written : net.Stream × Option net.Fault) (s' : S)
      → r.has_permission key (text "network:connect") ≡ true
      → (compile handshake_script (handshake_invocation now key) s).1 ≡ true
      → let (g', session) = established now link key send recv written g in Starts (g', session, s')
  unfolding established
  established-Starts key send recv (stream, some e) s' may agrees = refl
  established-Starts key send recv (stream, none) s' may agrees = (
    may,
    agrees,
    refl,
    lookup-insert_self key (unix now) g.active_sessions,
    λ k ne. lookup-insert_ne key k (unix now) g.active_sessions ne,
    refl,
    refl,
  )

  module _ (noise : Responder net) (stream : net.Stream) where
    answered-Starts :
        (key : Bytes) (o : Option (Bytes × net.Cipher × net.Cipher))
        → r.has_permission key (text "network:connect") ≡ true
        → Starts (answered noise r compile now link stream key o g s)
    unfolding answered
    answered-Starts key none may = refl
    answered-Starts key (some (msg, send, recv)) may =
        elim (Bool-cases (compile handshake_script (handshake_invocation now key) s).1) [
          | inl agrees ↦ rw agrees (
              established-Starts key send recv (write_frame net.write stream msg)
                (compile handshake_script (handshake_invocation now key) s).0 may agrees)
          | inr refuses ↦ rw refuses refl
        ]

    greeted-Starts :
        (o : Option (noise.State × Bytes)) → Starts (greeted noise r compile now link stream o g s)
    unfolding greeted
    greeted-Starts none = refl
    greeted-Starts (some (hs, key)) =
        elim (Bool-cases (r.has_permission key (text "network:connect"))) [
          | inl may ↦ rw may (answered-Starts key (noise.write_message hs) may)
          | inr denied ↦ rw denied refl
        ]

    first_frame-Starts :
        (frame : Result FrameError Bytes)
        → Starts (first_frame noise r compile now link stream frame g s)
    unfolding first_frame
    first_frame-Starts (err e) = refl
    first_frame-Starts (ok frame) = greeted-Starts (noise.read_message frame)

-- A session starts only for a peer whose static key the policy engine lets connect, and where the SDF
-- engine accepts the handshake: then the key's session is active from now on, the others are as they
-- were, with all hosts and the bus, and the session has that key and the link. Where no session starts, the gateway is as it was.
pub open_session-Starts :
    {net : Transport} {S : Type 0} (noise : Responder net) (r : Router S) (compile : Engine S)
    (now link : ℕ) (stream : net.Stream) (incoming : Bytes) (g : Gateway net) (s : S)
    → Starts r compile now link g s (open_session noise r compile now link stream incoming g s)
unfolding open_session
open_session-Starts noise r compile now link stream incoming g s =
    first_frame-Starts r compile now link g s noise stream (read_frame incoming max_frame_size).0

deny_tunnel-keeps :
    {net : Transport} (link : ℕ) (e : Option TunnelError) (g : Gateway net)
    → ((deny_tunnel link e g).active_sessions ≡ g.active_sessions)
      × ((deny_tunnel link e g).host_sessions ≡ g.host_sessions)
unfolding deny_tunnel
deny_tunnel-keeps link none g = (refl, refl)
deny_tunnel-keeps link (some e) g = (refl, refl)

-- A tunnel_bind returns from HandleSecureStream at once, whether the tunnel was accepted or not, and
-- skips what the end of a session does: the active session and the host sessions of the key stay.
pub handle_frame-bind :
    {net : Transport} (j : JsonText) {S : Type 0} (r : Router S) (services : Services S)
    (now conn : ℕ) (session : Session net) (frame decrypted : Bytes) (t : Tunnels) (g : Gateway net)
    (s : S) (req : ApiPayload)
    → (net.decrypt session.cs_recv frame).0 ≡ some decrypted
    → unmarshal_api_payload j decrypted ≡ some req
    → req.action ≡ text "tunnel_bind"
    → let (t', s', e) = register_tunnel j services (unix now) conn req.content t s in
      (g' : Gateway net) × (handle_frame j r services now conn session frame (tunnel_manager t) g s
        ≡ ok (returned, g', tunnel_manager t', s'))
      × (g'.active_sessions ≡ g.active_sessions)
      × (g'.host_sessions ≡ g.host_sessions)
unfolding handle_frame decrypted_frame handle_bytes bound ◌==◌
handle_frame-bind j r services now conn session frame decrypted t g s req opened parsed bind =
    let e = (register_tunnel j services (unix now) conn req.content t s).2 in
    rw opened (
      rw parsed (
        rw bind (
          deny_tunnel session.link e g,
          refl,
          (deny_tunnel-keeps session.link e g).0,
          (deny_tunnel-keeps session.link e g).1,
        )))
