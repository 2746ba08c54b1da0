-- ===== src/Rpc.antt =====
-- mesh_rpc.go: the RPC manager. A pending call's channel holds at most one packet. Call is two steps,
-- up to its select and from there, between which other calls and packets come; the ids of the
-- pending calls differ, as 16 random bytes do. A time is in nanoseconds since 1970. The peer route is
-- there (NewSecureNode makes one); `mesh` is its mesh node.
pub mod Ingress
pub mod Calls
pub mod Pending
pub mod Offline
mod Tests
use secure_network.Prelude.{
  ℕ, ◌/◌, Bool, true, false, not, List, [], ◌∷◌, ◌++◌, Option, none, some, Bytes, text, length, ltb,
  ◌==◌, if◌then◌else◌, Map, lookup, insert, delete, Result, ok, err,
}
use secure_network.Strings.{is_empty}
use secure_network.Strings.Hex.{encode_hex}
use secure_network.Json.{JsonText}
use secure_network.Wire.{RpcPacket, marshal_rpc_packet, unmarshal_rpc_packet}
use secure_network.Platform.{Transport, DataInvocation, Engine, grant}
use secure_network.Mesh.{MeshNode}
use secure_network.PeerRoute.{RouteError, broadcast, send_to_peer}

-- A handler returns a payload and an error's text or nil.
abbrev pub RpcHandler : Type 0 → Type 0
RpcHandler S = Bytes → S → S × Bytes × Option Bytes

pub record RpcManager (S : Type 0) : Type 0 where
  pub handlers : Map (RpcHandler S)
  pub pending : Map (Option RpcPacket)

pub data CallError : Type 0 where
  send_error : RouteError → CallError
  remote : Bytes → CallError
  cancelled timed_out : CallError

-- What a waiting Call may wake up for.
pub data Wake : Type 0 where
  response done timeout : Wake

pub rpc_script : Bytes → Bytes
rpc_script method = text "rpc:invocation(method(\"" ++ (method ++ text "\") stage(\"ingress\"))")

pub rpc_invocation : RpcPacket → DataInvocation
rpc_invocation p = record {
  target_address = text "network:rpc:" ++ p.method;
  caller = encode_hex p.source;
  nonce = p.timestamp;
  method = text "ASSERT_RPC_CAPABILITY";
  profile = grant;
  args = [];
}

-- Unix of a time
abbrev unix : ℕ → ℕ
unix now = now / 1_000_000_000

pub request : Bytes → Bytes → Bytes → Bytes → ℕ → RpcPacket
request id method payload target now = record {
  id = id;
  method = method;
  payload = payload;
  source = [];
  target = target;
  timestamp = unix now;
  response = false;
  error = [];
}

abbrev pub error_text : Option Bytes → Bytes
error_text none = []
error_text (some e) = e

pub reply : RpcPacket → Bytes → Option Bytes → ℕ → RpcPacket
reply p payload e now = record {
  id = p.id;
  method = p.method;
  payload = payload;
  source = [];
  target = p.source;
  timestamp = unix now;
  response = true;
  error = error_text e;
}

module _ {S : Type 0} where
  unfoldable pub new_rpc_manager : RpcManager S
  new_rpc_manager = record { handlers = []; pending = [] }

  unfoldable pub register : Bytes → RpcHandler S → RpcManager S → RpcManager S
  register method h m = record m { handlers = insert method h m.handlers }

  abbrev fill : RpcPacket → RpcManager S → Option (Option RpcPacket) → RpcManager S
  fill p m (some none) = record m { pending = insert p.id (some p) m.pending }
  fill p m waiter = m

  abbrev finished : Bytes → RpcManager S → RpcManager S
  finished id m = record m { pending = delete id m.pending }

  -- The waiter is entered before the request is sent, and taken out again if that failed.
  begun : Bytes → RpcManager S → Option RouteError → RpcManager S × Option CallError
  begun id m none = (record m { pending = insert id none m.pending }, none)
  begun id m (some e) =
      (finished id (record m { pending = insert id none m.pending }), some (send_error e))

  -- The send to the waiter's channel, which a full channel does not block.
  pub deposit : RpcPacket → RpcManager S → RpcManager S
  deposit p m = fill p m (lookup p.id m.pending)

module _ (net : Transport) (j : JsonText) (sha256 : Bytes → Bytes) where
  send_reply : ℕ → RpcPacket → RpcPacket → Option (MeshNode net) → Option (MeshNode net)
  send_reply now p answer mesh =
      let raw = marshal_rpc_packet j answer in
      if ltb 0 (length p.source)
      then (send_to_peer net j sha256 now mesh p.source (text "rpc") raw).0
      else (broadcast net j sha256 now mesh (text "rpc") raw).0

  -- Broadcast and Notify, which do the same.
  unfoldable pub notify :
      ℕ → Bytes → Bytes → Option (MeshNode net) → Option (MeshNode net) × Option RouteError
  notify now method payload mesh =
      broadcast net j sha256 now mesh (text "rpc")
        (marshal_rpc_packet j (request [] method payload [] now))

  pub notify_peer :
      ℕ → Bytes → Bytes → Bytes → Option (MeshNode net) → Option (MeshNode net) × Option RouteError
  notify_peer now target method payload mesh =
      send_to_peer net j sha256 now mesh target (text "rpc")
        (marshal_rpc_packet j (request [] method payload target now))

  module _ {S : Type 0} where
    run_handler :
        ℕ
        → RpcPacket
        → Option (RpcHandler S)
        → Option (MeshNode net)
        → S
        → Option (MeshNode net) × S
    run_handler now p none mesh s = (mesh, s)
    run_handler now p (some handler) mesh s =
        let (s', payload, e) = handler p.payload s in
        (send_reply now p (reply p payload e now) mesh, s')

    -- A request: the SDF engine is asked where there is a mesh node.
    pub serve :
        Engine S
        → ℕ
        → RpcPacket
        → RpcManager S
        → Option (MeshNode net)
        → S
        → Option (MeshNode net) × S
    unfolding run_handler
    serve compile now p m none s = run_handler now p (lookup p.method m.handlers) none s
    serve compile now p m (some mesh) s =
        let (s', allowed) = compile (rpc_script p.method) (rpc_invocation p) s in
        if allowed
        then run_handler now p (lookup p.method m.handlers) (some mesh) s'
        else (some mesh, s')

    receive :
        Engine S
        → ℕ
        → RpcPacket
        → RpcManager S
        → Option (MeshNode net)
        → S
        → RpcManager S × Option (MeshNode net) × S
    receive compile now p m mesh s =
        let (mesh', s') = serve compile now p m mesh s in
        if p.response then (deposit p m, mesh, s) else (m, mesh', s')

    -- handleIngress
    pub handle_ingress :
        Engine S
        → ℕ
        → Bytes
        → RpcManager S
        → Option (MeshNode net)
        → S
        → RpcManager S × Option (MeshNode net) × S
    handle_ingress compile now payload m mesh s = elim (unmarshal_rpc_packet j payload) [
      | none ↦ (m, mesh, s)
      | some p ↦ receive compile now p m mesh s
    ]

    -- Call, up to its select: `bytes` are the 16 random ones. An error ends the call.
    pub begin_call :
        ℕ
        → Bytes
        → Bytes
        → Bytes
        → Bytes
        → RpcManager S
        → Option (MeshNode net)
        → RpcManager S × Option (MeshNode net) × Option CallError
    begin_call now bytes target method payload m mesh =
        let id = encode_hex bytes in
        let raw = marshal_rpc_packet j (request id method payload target now) in
        let (mesh', e) = send_to_peer net j sha256 now mesh target (text "rpc") raw in
        let (m', e') = begun id m e in (m', mesh', e')

abbrev answer_of : RpcPacket → Result CallError Bytes
answer_of p = if is_empty p.error then ok p.payload else err (remote p.error)

abbrev waiter_answer : Option (Option RpcPacket) → Option (Result CallError Bytes)
waiter_answer (some (some p)) = some (answer_of p)
waiter_answer _ = none

module _ {S : Type 0} where
  woken :
      Bytes
      → RpcManager S
      → Option (Result CallError Bytes)
      → RpcManager S × Option (Result CallError Bytes)
  woken id m none = (m, none)
  woken id m (some r) = (finished id m, some r)

  -- The select of Call, and its deferred deletion: `none` where it cannot wake up for this.
  pub end_call : Wake → Bytes → RpcManager S → RpcManager S × Option (Result CallError Bytes)
  end_call response bytes m =
      woken (encode_hex bytes) m (waiter_answer (lookup (encode_hex bytes) m.pending))
  end_call done bytes m = woken (encode_hex bytes) m (some (err cancelled))
  end_call timeout bytes m = woken (encode_hex bytes) m (some (err timed_out))
