-- ===== src/Gateway.antt =====
-- gateway.go: the gateway's side of a mesh session, and DispatchProtocol of router.go. A stream and
-- its sending cipher state are objects that a session and the hosts it registered share: a session has a
-- link, and `links` is the store of them. None of its links is nil. The bus is LocalBus of the router, a
-- channel, from which nothing in the program receives. A signer is a key of 32 bytes. A time is in
-- nanoseconds since 1970.
pub mod Session
pub mod Routing
pub mod Bus
mod Tests
use secure_network.Prelude.{
  ℕ, ◌+◌, ◌-◌, ◌*◌, ◌/◌, Bool, true, false, not, ◌&&◌, List, [], ◌∷◌, ◌++◌, Option, none, some,
  Bytes, text, take, drop, eqb, ltb, ◌==◌, if◌then◌else◌, Map, lookup, insert, delete, retain,
  is_some, length, Result, ok, err,
}
use secure_network.Strings.{is_empty, has_prefix}
use secure_network.Strings.Hex.{encode_hex}
use secure_network.Strings.Decimal.{decimal}
use secure_network.Strings.Base64.{encode_base64}
use secure_network.Framing.{FrameError, write_frame, read_frame, max_frame_size}
use secure_network.Json.{Json, null, obj, str, Members, end, member, JsonText, members_fit}
use secure_network.Wire.{
  ApiPayload, unmarshal_api_payload, marshal_api_payload, marshal_content_meta, unmarshal_host_id,
}
use secure_network.Platform.{Transport, Engine, DataInvocation, proof_of_poss}

-- What the gateway calls of its router: the policy engine (the context holds the target alone), the
-- store's Put in a transaction of its own, whose errors are dropped, and the protocol handlers, whose
-- errors are only logged.
pub record Router (S : Type 0) : Type 0 where
  pub has_permission : Bytes → Bytes → Bool
  pub evaluate : Bytes → Bytes → Bytes → Bytes → Bool
  pub put : Bytes → Bytes → S → S
  pub protocol_handlers : Map (Bytes → Bytes → S → S)

-- The responder of a Noise IK handshake: ReadMessage gives the peer's static key, and WriteMessage the
-- answer with the cipher states for sending and for receiving.
pub record Responder (net : Transport) : Type 1 where
  pub State : Type 0
  pub read_message : Bytes → Option (State × Bytes)
  pub write_message : State → Option (Bytes × net.Cipher × net.Cipher)

-- The payload is the map that is then marshalled.
pub record SystemEvent : Type 0 where
  pub topic : Bytes
  pub payload : Map Json

pub record HostPeer : Type 0 where
  pub link : ℕ
  pub signer : Bytes

pub record Link (net : Transport) : Type 0 where
  pub stream : net.Stream
  pub cs_send : net.Cipher

pub record Gateway (net : Transport) : Type 0 where
  pub active_sessions : Map ℕ
  pub host_sessions : Map HostPeer
  pub links : ℕ → Link net
  pub bus : List SystemEvent

-- The capacity of LocalBus
abbrev pub bus_capacity : ℕ
bus_capacity = 2048

-- Why a call does not come back: it panics, by an assignment to an entry of a nil map, or it blocks, by
-- a send on a bus that is full.
pub data Halt : Type 0 where
  nil_map bus_full : Halt

-- Unix of a time
abbrev pub unix : ℕ → ℕ
unix now = now / 1_000_000_000

-- RegisterProtocol
unfoldable pub register_protocol :
    {S : Type 0} → Bytes → (Bytes → Bytes → S → S) → Router S → Router S
register_protocol action handler r = record r {
  protocol_handlers = insert action handler r.protocol_handlers;
}

-- The resource that the policy is asked about.
pub resource_of : Bytes → Bytes → Bytes
resource_of action target =
    if has_prefix target (text "host:") && action == text "ssh_proto"
    then text "ssh:exec"
    else if has_prefix target (text "host:") && action == text "k8s_proto"
    then text "k8s:exec"
    else if is_empty target
    then text "*"
    else target

-- A map[string]interface{}: of two members with one name the later counts.
collect : Map Json → Members → Map Json
collect m end = m
collect m (member k v ms) = collect (insert k v m) ms

abbrev event : Bytes → Map Json → SystemEvent
event signer m = record {
  topic = text "rpc_ingress";
  payload = insert (text "signer") (str (encode_base64 signer)) m;
}

abbrev is_allowed : {S : Type 0} → Router S → Bytes → ApiPayload → Bool
is_allowed r signer req =
    r.evaluate signer req.action (resource_of req.action req.target) req.target

module _ {net : Transport} where
  abbrev set_link : ℕ → Link net → Gateway net → Gateway net
  set_link n link g = record g { links = λ k. if eqb n k then link else g.links k }

  forward_on : ℕ → Option Bytes × net.Cipher → Gateway net → Gateway net × Bool
  forward_on n (none, cs) g = (set_link n (record (g.links n) { cs_send = cs }) g, false)
  forward_on n (some enc, cs) g =
      let (stream', e) = write_frame net.write (g.links n).stream enc in
      (set_link n (record { stream = stream'; cs_send = cs }) g, not (is_some e))

  pub forward_to_host : Bytes → Bytes → Gateway net → Gateway net × Bool
  unfolding forward_on
  forward_to_host host payload g = elim (lookup host g.host_sessions) [
    | none ↦ (g, false)
    | some peer ↦ forward_on peer.link (net.encrypt (g.links peer.link).cs_send payload) g
  ]

  pub clear_host_sessions : Bytes → Gateway net → Gateway net
  clear_host_sessions signer g = record g {
    host_sessions = retain (λ peer. not (peer.signer == signer)) g.host_sessions;
  }

  -- The branch for "mesh_register", of the host id that was read.
  registered : ℕ → Bytes → Option Bytes → Gateway net → Gateway net
  registered link signer none g = g
  registered link signer (some host) g = if is_empty host then g else record g {
    host_sessions = insert host (record { link = link; signer = signer }) g.host_sessions;
  }

  abbrev beat_now : ℕ → Bytes → Gateway net → Gateway net
  beat_now now signer g = record g { active_sessions = insert signer (unix now) g.active_sessions }

  -- The branch for "rpc", of the content that was parsed.
  publish_rpc : JsonText → Bytes → Option Json → Gateway net → Result Halt (Gateway net)
  unfolding collect
  publish_rpc j signer (some (obj ms)) g =
      if not (members_fit j ms)
      then ok g
      else if ltb (length g.bus) bus_capacity
      then ok (record g { bus = g.bus ++ (event signer (collect [] ms) ∷ []) })
      else err bus_full
  publish_rpc j signer (some null) g = err nil_map
  publish_rpc j signer _ g = ok g

module _ (j : JsonText) {S : Type 0} (r : Router S) where
  post : ℕ → Bytes → Bytes → S → S
  post now signer content s =
      r.put
        (text "data:"
          ++ (text "post:" ++ (decimal now ++ (text ":" ++ encode_hex (take 4 signer)))))
        (marshal_content_meta j (record {
          signer = signer;
          content = content;
          target = [];
          value = 0;
          created_at = unix now;
        }))
        s

  karma : ℕ → Bytes → Bytes → ℕ → S → S
  karma now signer target value s =
      if is_empty target
      then s
      else r.put
          (text "data:" ++ (text "karma:" ++ (target ++ (text ":" ++ encode_hex (take 8 signer)))))
          (marshal_content_meta j (record {
            signer = signer;
            content = [];
            target = target;
            value = value;
            created_at = unix now;
          }))
          s

module _ {net : Transport} (j : JsonText) {S : Type 0} (r : Router S) where
  abbrev with_state : S → Result Halt (Gateway net) → Result Halt (Gateway net × S)
  with_state s (ok g) = ok (g, s)
  with_state s (err e) = err e

  -- The switch at the end of routeToAPI.
  pub perform : ℕ → Bytes → ApiPayload → Gateway net → S → Result Halt (Gateway net × S)
  unfolding publish_rpc post karma
  perform now signer req g s =
      if req.action == text "dbsc_heartbeat_resp"
      then ok (beat_now now signer g, s)
      else if req.action == text "post"
      then ok (g, post j r now signer req.content s)
      else if req.action == text "karma"
      then ok (g, karma j r now signer req.target req.value s)
      else if req.action == text "rpc"
      then with_state s (publish_rpc j signer (j.parse req.content) g)
      else ok (g, s)

  -- DispatchProtocol, and what follows it where no handler is registered.
  dispatch_protocol : ℕ → Bytes → ApiPayload → Gateway net → S → Result Halt (Gateway net × S)
  dispatch_protocol now signer req g s = elim (lookup req.action r.protocol_handlers) [
    | none ↦ perform now signer req g s
    | some handler ↦ ok (g, handler signer req.content s)
  ]

  abbrev unless_sent :
      ℕ → Bytes → ApiPayload → Gateway net × Bool → S → Result Halt (Gateway net × S)
  unless_sent now signer req (g, true) s = ok (g, s)
  unless_sent now signer req (g, false) s = dispatch_protocol now signer req g s

  allowed : ℕ → Bytes → Bytes → ApiPayload → Gateway net → S → Result Halt (Gateway net × S)
  unfolding dispatch_protocol
  allowed now signer payload req g s =
      if has_prefix req.target (text "host:")
      then unless_sent now signer req (forward_to_host (drop 5 req.target) payload g) s
      else dispatch_protocol now signer req g s

  route : ℕ → ℕ → Bytes → Bytes → ApiPayload → Gateway net → S → Result Halt (Gateway net × S)
  unfolding allowed registered
  route now link signer payload req g s =
      if req.action == text "mesh_register"
      then ok (registered link signer (unmarshal_host_id j req.content) g, s)
      else if is_allowed r signer req
      then allowed now signer payload req g s
      else ok (g, s)

  -- routeToAPI
  pub route_to_api : ℕ → ℕ → Bytes → Bytes → Gateway net → S → Result Halt (Gateway net × S)
  route_to_api now link signer payload g s = elim (unmarshal_api_payload j payload) [
    | none ↦ ok (g, s)
    | some req ↦ route now link signer payload req g s
  ]
