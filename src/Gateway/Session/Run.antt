-- ===== src/Gateway/Session/Run.antt =====
-- HandleSecureStream of gateway.go as a whole, for a peer that sends finitely many bytes: ReadFrame gives an
-- error at their end, as it does when the stream is closed. No other session has a step in between.
-- `clock` gives the time of each frame, and fuel bounds the number of frames.
pub mod Delivery
pub mod Termination
mod Tests
use secure_network.Prelude.{
  ℕ, zero, suc, ◌<◌, ◌≡◌, ◌≢◌, refl, ap, subst, true, Option, none, some, arith, Bytes, length,
  lookup, lookup-delete, eq_refl, eq_iff, ◌==◌, AllEntries-lookup, AllEntries-retain_passes, retain,
  not, Result, ok, err,
}
use secure_network.Framing.{FrameError, read_frame, max_frame_size}
use secure_network.Framing.Consumption.{read_frame-length_le, read_frame-length_lt}
use secure_network.Json.{JsonText}
use secure_network.Wire.{unmarshal_api_payload}
use secure_network.Platform.{Transport, Engine}
use secure_network.Tunnel.{Services, Tunnels}
use secure_network.Gateway.{
  Gateway, HostPeer, Responder, Router, Halt, route_to_api, clear_host_sessions,
}
use secure_network.Gateway.Session.{
  TunnelModule, no_module, tunnel_manager, Session, Loop, runs, returned, open_session, end_session,
  handle_frame, handle_bytes, decrypted_frame, still, bound, bind_content,
}
use secure_network.Gateway.Session.Lifetime.{Starts, open_session-Starts}

-- How HandleSecureStream returns.
pub data Ending : Type 0 where
  not_opened closed bound_tunnel out_of_fuel : Ending

abbrev pub Ended : Transport → Type 0 → Type 0
Ended net S = Ending × Gateway net × TunnelModule × S

module _ {net : Transport} (j : JsonText) {S : Type 0} (r : Router S) (services : Services S)
    (conn : ℕ) (clock : ℕ → ℕ) where
  -- What follows a frame, where `next` is the loop from the frame after it.
  after_frame :
      (Session net → TunnelModule → Gateway net → S → Result Halt (Ended net S))
      → Result Halt (Loop net × Gateway net × TunnelModule × S)
      → Result Halt (Ended net S)
  after_frame next (err panic) = err panic
  after_frame next (ok (returned, g, t, s)) = ok (bound_tunnel, g, t, s)
  after_frame next (ok (runs session, g, t, s)) = next session t g s

  -- What follows ReadFrame, where `next` is the rest of the loop on a frame.
  after_read :
      Session net
      → TunnelModule
      → Gateway net
      → S
      → (Bytes → Result Halt (Ended net S))
      → Result FrameError Bytes
      → Result Halt (Ended net S)
  after_read session t g s next (err e) = ok (closed, end_session session.remote_key g, t, s)
  after_read session t g s next (ok frame) = next frame

  -- The loop, from its `k`-th frame on.
  pub session_loop :
      ℕ → ℕ → Session net → Bytes → TunnelModule → Gateway net → S → Result Halt (Ended net S)
  unfolding after_frame after_read
  session_loop zero k session incoming t g s = ok (out_of_fuel, g, t, s)
  session_loop (suc fuel) k session incoming t g s =
      let (read, rest) = read_frame incoming max_frame_size in
      after_read session t g s
        (λ frame.
          after_frame (λ x t' g' s'. session_loop fuel (suc k) x rest t' g' s')
            (handle_frame j r services (clock k) conn session frame t g s))
        read

  abbrev from_opening :
      ℕ → Bytes → TunnelModule → Gateway net × Option (Session net) × S → Result Halt (Ended net S)
  from_opening fuel rest t (g, none, s) = ok (not_opened, g, t, s)
  from_opening fuel rest t (g, some session, s) = session_loop fuel 0 session rest t g s

  module _ (noise : Responder net) (compile : Engine S) where
    -- HandleSecureStream
    pub handle_secure_stream :
        ℕ → ℕ → ℕ → net.Stream → Bytes → TunnelModule → Gateway net → S → Result Halt (Ended net S)
    handle_secure_stream fuel now link stream incoming t g s =
        from_opening fuel (read_frame incoming max_frame_size).1 t
          (open_session noise r compile now link stream incoming g s)
