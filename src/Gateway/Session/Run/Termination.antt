-- ===== src/Gateway/Session/Run/Termination.antt =====
-- How HandleSecureStream is left once its peer's stream has ended.
use secure_network.Prelude.{
  ◌+◌, ◌≤◌, sym, List, ℕ, zero, suc, ◌<◌, ◌≡◌, ◌≢◌, refl, ap, subst, true, Option, none, some,
  arith, Bytes, length, lookup, lookup-delete, eq_refl, eq_iff, ◌==◌, AllEntries-lookup,
  AllEntries-retain_passes, retain, not, Result, ok, err,
}
use secure_network.Framing.{FrameError, read_frame, max_frame_size}
use secure_network.Framing.Consumption.{read_frame-length_le, read_frame-length_lt}
use secure_network.Json.{JsonText}
use secure_network.Wire.{unmarshal_api_payload}
use secure_network.Platform.{Transport, Engine}
use secure_network.Tunnel.{Services, Tunnels}
use secure_network.Gateway.{
  Gateway, HostPeer, Responder, Router, Halt, nil_map, bus_full, bus_capacity, SystemEvent,
  route_to_api, clear_host_sessions,
}
use secure_network.Gateway.Session.{
  TunnelModule, no_module, other_module, tunnel_manager, Session, Loop, runs, returned,
  open_session, end_session, handle_frame, handle_bytes, decrypted_frame, still, bound,
  bind_content,
}
use secure_network.Gateway.Bus.{Publishes, route_to_api-Publishes}
use secure_network.Gateway.Session.Lifetime.{Starts, open_session-Starts}
use secure_network.Gateway.Session.Run.{
  Ended, not_opened, closed, bound_tunnel, out_of_fuel, after_frame, after_read, session_loop,
  from_opening, handle_secure_stream,
}

-- Nothing of the key is left at the gateway.
pub record IsCleared {net : Transport} (key : Bytes) (g : Gateway net) : Type 0 where
  pub inactive : lookup key g.active_sessions ≡ none
  pub hostless :
      (host : Bytes) (peer : HostPeer) → lookup host g.host_sessions ≡ some peer → peer.signer ≢ key

end_session-IsCleared :
    {net : Transport} (key : Bytes) (g : Gateway net) → IsCleared key (end_session key g)
unfolding end_session clear_host_sessions
end_session-IsCleared key g = record {
  inactive = ground (arith, lookup-delete key key g.active_sessions, eq_refl key);
  hostless = λ host peer found.
      let p = λ (peer : HostPeer). not (peer.signer == key) in
      let passes =
        AllEntries-lookup (λ k v. p v ≡ true) host (retain p g.host_sessions) found
          (AllEntries-retain_passes p g.host_sessions) in
      λ same. ground (arith, passes, eq_iff peer.signer key);
}

module _ {net : Transport} {S : Type 0} (key : Bytes) (n : ℕ) where
  -- After a frame, where the bus had `n` events: the session has its key still and the bus at most one
  -- event more, or a manager of tunnels is attached, or the bus was full.
  abbrev IsFrameEnd : Result Halt (Loop net × Gateway net × TunnelModule × S) → Type 0
  IsFrameEnd (err nil_map) = Unit
  IsFrameEnd (err bus_full) = bus_capacity ≤ n
  IsFrameEnd (ok (runs x, g, t, s)) = (x.remote_key ≡ key) × (length g.bus ≤ suc n)
  IsFrameEnd (ok (returned, g, t, s)) = (tunnels : Tunnels) × (t ≡ tunnel_manager tunnels)

  -- How the loop is left, where the bus had room for all but `n` events: by a panic, blocked on the bus,
  -- with nothing of the key left after a frame that cannot be read, or after a tunnel_bind where a manager
  -- of tunnels is attached.
  abbrev pub IsLoopEnd : Result Halt (Ended net S) → Type 0
  IsLoopEnd (err nil_map) = Unit
  IsLoopEnd (err bus_full) = bus_capacity ≤ n
  IsLoopEnd (ok (not_opened, g, t, s)) = ⊥
  IsLoopEnd (ok (closed, g, t, s)) = IsCleared key g
  IsLoopEnd (ok (bound_tunnel, g, t, s)) = (tunnels : Tunnels) × (t ≡ tunnel_manager tunnels)
  IsLoopEnd (ok (out_of_fuel, g, t, s)) = ⊥

module _ {net : Transport} (j : JsonText) {S : Type 0} (r : Router S) (services : Services S)
    (conn : ℕ) where
  still-IsFrameEnd :
      (n : ℕ) (x : Session net) (t : TunnelModule) (o : Result Halt (Gateway net × S))
      → Publishes n o
      → IsFrameEnd x.remote_key n (still j r services x t o)
  still-IsFrameEnd n x t (err nil_map) h = tt
  still-IsFrameEnd n x t (err bus_full) h = h
  still-IsFrameEnd n x t (ok (g, s)) h = (refl, h)

  handle_bytes-IsFrameEnd :
      (now : ℕ) (d : Bytes) (x : Session net) (bind : Option Bytes) (t : TunnelModule)
      (g : Gateway net) (s : S)
      → IsFrameEnd x.remote_key (length g.bus) (handle_bytes j r services now conn d x bind t g s)
  unfolding handle_bytes bound
  handle_bytes-IsFrameEnd now d x none t g s =
      still-IsFrameEnd (length g.bus) x t (route_to_api j r now x.link x.remote_key d g s)
        (route_to_api-Publishes j r now x.link x.remote_key d g s)
  handle_bytes-IsFrameEnd now d x (some c) no_module g s =
      still-IsFrameEnd (length g.bus) x no_module (route_to_api j r now x.link x.remote_key d g s)
        (route_to_api-Publishes j r now x.link x.remote_key d g s)
  handle_bytes-IsFrameEnd now d x (some c) other_module g s = (refl, omega arith)
  handle_bytes-IsFrameEnd now d x (some c) (tunnel_manager t) g s = (_, refl)

  handle_frame-IsFrameEnd :
      (now : ℕ) (x : Session net) (frame : Bytes) (t : TunnelModule) (g : Gateway net) (s : S)
      → IsFrameEnd x.remote_key (length g.bus) (handle_frame j r services now conn x frame t g s)
  unfolding handle_frame decrypted_frame
  handle_frame-IsFrameEnd now x frame t g s = go (net.decrypt x.cs_recv frame)
    where
      go :
          (o : Option Bytes × net.Cipher)
          → IsFrameEnd x.remote_key (length g.bus) (decrypted_frame j r services now conn x o t g s)
      go (none, cs) = (refl, omega arith)
      go (some d, cs) =
          handle_bytes-IsFrameEnd now d (record x { cs_recv = cs })
            (bind_content (unmarshal_api_payload j d)) t g s

  module _ (clock : ℕ → ℕ) (key : Bytes) (total : ℕ) where
    after_frame-IsLoopEnd :
        (n : ℕ) (next : Session net → TunnelModule → Gateway net → S → Result Halt (Ended net S))
        (o : Result Halt (Loop net × Gateway net × TunnelModule × S))
        → n ≤ total
        → ((x : Session net) (t : TunnelModule) (g : Gateway net) (s : S)
            → x.remote_key ≡ key
            → length g.bus ≤ suc n
            → IsLoopEnd key total (next x t g s))
        → IsFrameEnd key n o
        → IsLoopEnd key total (after_frame j r services conn clock next o)
    unfolding after_frame
    after_frame-IsLoopEnd n next (err nil_map) room ends h = tt
    after_frame-IsLoopEnd n next (err bus_full) room ends h = omega arith
    after_frame-IsLoopEnd n next (ok (returned, g, t, s)) room ends h = h
    after_frame-IsLoopEnd n next (ok (runs x, g, t, s)) room ends (same, grown) =
        ends x t g s same grown

    after_read-IsLoopEnd :
        (x : Session net) (t : TunnelModule) (g : Gateway net) (s : S)
        (next : Bytes → Result Halt (Ended net S)) (o : Result FrameError Bytes)
        → x.remote_key ≡ key
        → ((frame : Bytes) → o ≡ ok frame → IsLoopEnd key total (next frame))
        → IsLoopEnd key total (after_read j r services conn clock x t g s next o)
    unfolding after_read
    after_read-IsLoopEnd x t g s next (err e) same ends =
        subst (λ key. IsCleared key (end_session x.remote_key g)) same
          (end_session-IsCleared x.remote_key g)
    after_read-IsLoopEnd x t g s next (ok frame) same ends = ends frame refl

    session_loop-IsLoopEnd :
        (fuel k : ℕ) (x : Session net) (incoming : Bytes) (t : TunnelModule) (g : Gateway net)
        (s : S)
        → length incoming < fuel
        → length g.bus + length incoming ≤ total
        → x.remote_key ≡ key
        → IsLoopEnd key total (session_loop j r services conn clock fuel k x incoming t g s)
    unfolding session_loop
    session_loop-IsLoopEnd zero k x incoming t g s enough room same = absurd (omega arith)
    session_loop-IsLoopEnd (suc fuel) k x incoming t g s enough room same =
        let (read, rest) = read_frame incoming max_frame_size in
        after_read-IsLoopEnd x t g s _ read same (λ frame is_read.
          let shorter = read_frame-length_lt incoming frame max_frame_size is_read in
          let result = handle_frame j r services (clock k) conn x frame t g s in
          after_frame-IsLoopEnd (length g.bus) _ result (omega arith)
            (λ x' t' g' s' kept grown.
              session_loop-IsLoopEnd fuel (suc k) x' rest t' g' s' (omega arith) (omega arith) kept)
            (subst (λ key. IsFrameEnd key (length g.bus) result) same
              (handle_frame-IsFrameEnd (clock k) x frame t g s)))

module _ {net : Transport} {S : Type 0} (old : Gateway net) (t : TunnelModule) (n : ℕ) where
  -- How HandleSecureStream is left, by what its opening gave.
  abbrev pub IsEnd : Gateway net × Option (Session net) × S → Result Halt (Ended net S) → Type 0
  IsEnd (g, none, s) result = result ≡ ok (not_opened, old, t, s)
  IsEnd (g, some x, s) result = IsLoopEnd x.remote_key n result

module _ {net : Transport} (j : JsonText) {S : Type 0} (r : Router S) (services : Services S)
    (conn : ℕ) (clock : ℕ → ℕ) (noise : Responder net) (compile : Engine S) (now link : ℕ) where
  from_opening-IsEnd :
      (fuel total : ℕ) (rest : Bytes) (t : TunnelModule) (old : Gateway net) (s : S)
      (o : Gateway net × Option (Session net) × S)
      → length rest < fuel
      → length old.bus + length rest ≤ total
      → Starts r compile now link old s o
      → IsEnd old t total o (from_opening j r services conn clock fuel rest t o)
  from_opening-IsEnd fuel total rest t old s (g, none, s') enough room starts =
      ap (λ g. ok (not_opened, g, t, s')) starts
  from_opening-IsEnd fuel total rest t old s (g, some x, s') enough room starts =
      let (may, agrees, has_link, active, others, hosts, same) = starts in
      session_loop-IsLoopEnd j r services conn clock x.remote_key total fuel 0 x rest t g s' enough
        (subst (λ (bus : List SystemEvent). length bus + length rest ≤ total) (sym same) room) refl

  -- HandleSecureStream does not go on after its peer's stream has ended, where the protocol handlers, the
  -- services and the writes that it calls come back and nothing is taken from LocalBus meanwhile: with more
  -- fuel than the peer sent bytes, it never runs out of fuel. Where no session was opened, it has returned
  -- and the gateway is as it was. Where one was, it has panicked; or it waits at a full LocalBus, and then
  -- the events on the bus before and the bytes sent are at least 2048 together; or it has returned after
  -- a tunnel_bind with a TunnelManager attached; or it has returned after a frame that it could not read,
  -- and then neither an active session nor a host session of the peer's key is left.
  pub handle_secure_stream-IsEnd :
      (fuel : ℕ) (stream : net.Stream) (incoming : Bytes) (t : TunnelModule) (g : Gateway net)
      (s : S)
      → length incoming < fuel
      → IsEnd g t
          (length g.bus + length incoming)
          (open_session noise r compile now link stream incoming g s)
          (handle_secure_stream j r services conn clock noise compile fuel now link stream incoming
            t g s)
  unfolding handle_secure_stream
  handle_secure_stream-IsEnd fuel stream incoming t g s enough =
      let shorter = read_frame-length_le incoming max_frame_size in
      from_opening-IsEnd fuel (length g.bus + length incoming)
        (read_frame incoming max_frame_size).1 t g s
        (open_session noise r compile now link stream incoming g s) (omega arith) (omega arith)
        (open_session-Starts noise r compile now link stream incoming g s)
