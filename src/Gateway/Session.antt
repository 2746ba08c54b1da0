-- ===== src/Gateway/Session.antt =====
-- HandleSecureStream and monitorHeartbeat of gateway.go: a session, from its handshake to its end. Each
-- frame is a step, between which other sessions have theirs. The deferred closing of the stream, and of
-- the channel that stops the heartbeat, belongs to whoever runs the steps.
pub mod Lifetime
pub mod Run
pub mod Agents
mod Tests
use secure_network.Prelude.{
  ℕ, ◌+◌, ◌-◌, ◌/◌, Bool, true, false, not, ◌&&◌, List, [], ◌∷◌, ◌++◌, Option, none, some, Bytes,
  text, ltb, eqb, ◌==◌, if◌then◌else◌, Map, lookup, insert, delete, is_some, Result, ok, err,
}
use secure_network.Strings.Base64.{encode_base64}
use secure_network.Framing.{FrameError, write_frame, read_frame, max_frame_size}
use secure_network.Json.{JsonText}
use secure_network.Wire.{ApiPayload, unmarshal_api_payload, marshal_api_payload}
use secure_network.Platform.{Transport, Engine, DataInvocation, proof_of_poss}
use secure_network.Tunnel.{Services, Tunnels, TunnelError, register_tunnel}
use secure_network.Gateway.{
  Gateway, Link, Responder, Router, Halt, unix, set_link, route_to_api, clear_host_sessions,
}

pub handshake_script : Bytes
handshake_script = text "protocol:handshake(stage(\"responder\") status(\"established\"))"

pub handshake_invocation : ℕ → Bytes → DataInvocation
handshake_invocation now remote_key = record {
  target_address = text "protocol:handshake:inbound";
  caller = encode_base64 remote_key;
  nonce = now;
  method = text "ESTABLISH_TUNNEL";
  profile = proof_of_poss;
  args = [];
}

-- What the loop keeps: its link, the peer's static key and the receiving cipher state.
pub record Session (net : Transport) : Type 0 where
  pub link : ℕ
  pub remote_key : Bytes
  pub cs_recv : net.Cipher

module _ {net : Transport} where
  -- The session is entered once its answer is written.
  established :
      ℕ
      → ℕ
      → Bytes
      → net.Cipher
      → net.Cipher
      → net.Stream × Option net.Fault
      → Gateway net
      → Gateway net × Option (Session net)
  established now link key send recv (stream, some e) g = (g, none)
  established now link key send recv (stream, none) g = (
    set_link link (record { stream = stream; cs_send = send })
        (record g { active_sessions = insert key (unix now) g.active_sessions }),
    some (record { link = link; remote_key = key; cs_recv = recv }),
  )

  module _ {S : Type 0} (noise : Responder net) (r : Router S) (compile : Engine S) where
    answered :
        ℕ
        → ℕ
        → net.Stream
        → Bytes
        → Option (Bytes × net.Cipher × net.Cipher)
        → Gateway net
        → S
        → Gateway net × Option (Session net) × S
    unfolding established
    answered now link stream key none g s = (g, none, s)
    answered now link stream key (some (msg, send, recv)) g s =
        let (s', allowed) = compile handshake_script (handshake_invocation now key) s in
        let (g', session) =
          established now link key send recv (write_frame net.write stream msg) g in
        if allowed then (g', session, s') else (g, none, s')

    greeted :
        ℕ
        → ℕ
        → net.Stream
        → Option (noise.State × Bytes)
        → Gateway net
        → S
        → Gateway net × Option (Session net) × S
    unfolding answered
    greeted now link stream none g s = (g, none, s)
    greeted now link stream (some (hs, key)) g s =
        if r.has_permission key (text "network:connect")
        then answered now link stream key (noise.write_message hs) g s
        else (g, none, s)

    first_frame :
        ℕ
        → ℕ
        → net.Stream
        → Result FrameError Bytes
        → Gateway net
        → S
        → Gateway net × Option (Session net) × S
    unfolding greeted
    first_frame now link stream (err e) g s = (g, none, s)
    first_frame now link stream (ok frame) g s =
        greeted now link stream (noise.read_message frame) g s

    -- HandleSecureStream before its loop, on the bytes that come in: no session where it returns.
    unfoldable pub open_session :
        ℕ → ℕ → net.Stream → Bytes → Gateway net → S → Gateway net × Option (Session net) × S
    unfolding first_frame
    open_session now link stream incoming g s =
        first_frame now link stream (read_frame incoming max_frame_size).0 g s

  -- What follows the loop, after a frame that cannot be read.
  pub end_session : Bytes → Gateway net → Gateway net
  end_session key g =
      clear_host_sessions key (record g { active_sessions = delete key g.active_sessions })

  -- The answer to a tunnel that was refused; its error is dropped.
  deny_tunnel : ℕ → Option TunnelError → Gateway net → Gateway net
  deny_tunnel link none g = g
  deny_tunnel link (some e) g =
      let written =
        write_frame net.write (g.links link).stream (text "HTTP/1.1 403 Forbidden\r\n\r\n") in
      set_link link (record (g.links link) { stream = written.0 }) g

-- Whether the document is an action that binds a tunnel, and its content.
abbrev bind_content : Option ApiPayload → Option Bytes
bind_content none = none
bind_content (some req) = if req.action == text "tunnel_bind" then some req.content else none

-- Modules["mesh_tunnel"] of the router, which may be no TunnelManager.
pub data TunnelModule : Type 0 where
  no_module other_module : TunnelModule
  tunnel_manager : Tunnels → TunnelModule

-- After a frame: the loop goes on, or HandleSecureStream has returned.
pub data Loop (net : Transport) : Type 0 where
  runs : Session net → Loop net
  returned : Loop net

module _ {net : Transport} (j : JsonText) {S : Type 0} (r : Router S) (services : Services S) where
  abbrev bound :
      Session net
      → Gateway net
      → Tunnels × S × Option TunnelError
      → Loop net × Gateway net × TunnelModule × S
  unfolding deny_tunnel
  bound session g (t, s, e) = (returned, deny_tunnel session.link e g, tunnel_manager t, s)

  abbrev still :
      Session net
      → TunnelModule
      → Result Halt (Gateway net × S)
      → Result Halt (Loop net × Gateway net × TunnelModule × S)
  still session t (err e) = err e
  still session t (ok (g, s)) = ok (runs session, g, t, s)

  handle_bytes :
      ℕ
      → ℕ
      → Bytes
      → Session net
      → Option Bytes
      → TunnelModule
      → Gateway net
      → S
      → Result Halt (Loop net × Gateway net × TunnelModule × S)
  handle_bytes now conn decrypted session (some content) (tunnel_manager t) g s =
      ok (bound session g (register_tunnel j services (unix now) conn content t s))
  handle_bytes now conn decrypted session (some content) other_module g s =
      ok (runs session, g, other_module, s)
  handle_bytes now conn decrypted session bind t g s =
      still session t (route_to_api j r now session.link session.remote_key decrypted g s)

  decrypted_frame :
      ℕ
      → ℕ
      → Session net
      → Option Bytes × net.Cipher
      → TunnelModule
      → Gateway net
      → S
      → Result Halt (Loop net × Gateway net × TunnelModule × S)
  unfolding handle_bytes
  decrypted_frame now conn session (none, cs) t g s =
      ok (runs (record session { cs_recv = cs }), g, t, s)
  decrypted_frame now conn session (some d, cs) t g s =
      handle_bytes now conn d (record session { cs_recv = cs })
        (bind_content (unmarshal_api_payload j d)) t g s

  -- The body of the loop, on a frame that was read; `t` is the module "mesh_tunnel".
  pub handle_frame :
      ℕ
      → ℕ
      → Session net
      → Bytes
      → TunnelModule
      → Gateway net
      → S
      → Result Halt (Loop net × Gateway net × TunnelModule × S)
  unfolding decrypted_frame
  handle_frame now conn session frame t g s =
      decrypted_frame now conn session (net.decrypt session.cs_recv frame) t g s

-- After a tick of monitorHeartbeat: it closed the stream, or could not write, or goes on.
pub data Beat : Type 0 where
  closes stops goes_on : Beat

-- `time.Now().Unix()-lastSeen > 180`, for a session that is not active too.
pub is_stale : ℕ → Option ℕ → Bool
is_stale now none = true
is_stale now (some last_seen) = ltb 180 (unix now - last_seen)

abbrev bytes_of : Option Bytes → Bytes
bytes_of none = []
bytes_of (some s) = s

abbrev beat_of : {F : Type 0} → Option F → Beat
beat_of none = goes_on
beat_of (some e) = stops

pub heartbeat : Bytes → ApiPayload
heartbeat challenge = record {
  action = text "dbsc_heartbeat_req";
  content = challenge;
  target = [];
  value = 0;
}

module _ {net : Transport} (j : JsonText) where
  -- The challenge; what Encrypt failed to give is written as an empty frame.
  challenged : ℕ → Option Bytes × net.Cipher → Gateway net → Gateway net × Beat
  challenged link (enc, cs) g =
      let (stream', e) = write_frame net.write (g.links link).stream (bytes_of enc) in
      (set_link link (record { stream = stream'; cs_send = cs }) g, beat_of e)

  pub monitor_heartbeat : ℕ → Bytes → ℕ → Bytes → Gateway net → Gateway net × Beat
  unfolding is_stale challenged heartbeat
  monitor_heartbeat now challenge link signer g =
      if is_stale now (lookup signer g.active_sessions)
      then (g, closes)
      else challenged link
          (net.encrypt (g.links link).cs_send (marshal_api_payload j (heartbeat challenge))) g
