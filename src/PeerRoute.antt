-- ===== src/PeerRoute.antt =====
-- peer_route.go: the registry of peers, their access policies, and the routing of messages. A peer's
-- record is an object that AddPeer shares with its caller: the map holds references into a store.
pub mod Registry
pub mod Sending
pub mod Access
pub mod Names
mod Tests
use secure_network.Prelude.{
  ℕ, ◌≤◌, ◌<◌, ◌≡◌, Bool, true, false, not, ◌&&◌, ◌||◌, List, [], ◌∷◌, ◌++◌, Option, none, some,
  Bytes, text, length, take, ltb, eqb, ◌==◌, if◌then◌else◌, Map, lookup, insert, delete, is_some,
  Result, ok, err, map,
}
use secure_network.Strings.{is_empty, to_lower, trim_space}
use secure_network.Strings.Hex.{encode_hex}
use secure_network.Json.{JsonText}
use secure_network.Wire.{ApiPayload, PeerMessage, marshal_peer_message, unmarshal_peer_message}
use secure_network.Platform.{Transport, DataInvocation, Engine, Handler, grant}
use secure_network.Mesh.{MeshNode, SendError, connected, send_action}

pub data AccessPolicy : Type 0 where
  deny read_only see write admin : AccessPolicy

pub record PeerIdentity : Type 0 where
  pub node_id : Bytes
  pub public_key : Bytes
  pub address : Bytes
  pub last_seen : ℕ

-- A reference is a number, and the store gives the object that it points to.
abbrev pub Store : Type 0
Store = ℕ → PeerIdentity

pub record PeerRoute (S : Type 0) : Type 0 where
  pub handlers : Map (Handler S PeerMessage)
  pub access_policies : Map AccessPolicy
  pub peers : Map ℕ

pub data RouteError : Type 0 where
  no_handler malformed : RouteError
  handler_failed : Bytes → RouteError
  no_node not_connected : RouteError
  send_failed : SendError → RouteError

pub data HandshakeError : Type 0 where
  bad_length engine_refused no_mapping explicitly_denied intent_rejected : HandshakeError

-- AccessPolicyName
unfoldable pub access_policy_name : AccessPolicy → Bytes
access_policy_name read_only = text "readonly"
access_policy_name see = text "see"
access_policy_name write = text "write"
access_policy_name admin = text "admin"
access_policy_name deny = text "deny"

policy_of : Bytes → AccessPolicy × Bool
policy_of s =
    if s == text "deny" || s == text "none" || s == text "block"
    then (deny, true)
    else if s == text "readonly" || s == text "read" || s == text "ro"
    then (read_only, true)
    else if s == text "see" || s == text "view"
    then (see, true)
    else if s == text "write" || s == text "rw"
    then (write, true)
    else if s == text "admin" || s == text "owner"
    then (admin, true)
    else (deny, false)

-- ParseAccessPolicy
unfoldable pub parse_access_policy : Bytes → AccessPolicy × Bool
unfolding policy_of
parse_access_policy s = policy_of (to_lower (trim_space s))

abbrev touched : ℕ → Store → Option ℕ → Store
touched now store none = store
touched now store (some peer) =
    λ q. if eqb peer q then record (store q) { last_seen = now } else store q

-- The switch of EvaluateSwarmHandshake over a policy that is set.
decide : AccessPolicy → Bytes → Result HandshakeError Bool
decide admin intent = ok true
decide see intent = ok true
decide write intent =
    if intent == text "WRITE_INTENT" || intent == text "READ_INTENT" || intent == text "S2P_PULL"
    then ok true
    else err intent_rejected
decide read_only intent =
    if intent == text "READ_INTENT" || intent == text "S2P_PULL"
    then ok true
    else err intent_rejected
decide deny intent = err explicitly_denied

decide_on : Option AccessPolicy → Bytes → Result HandshakeError Bool
unfolding decide
decide_on none intent = err no_mapping
decide_on (some policy) intent = decide policy intent

unfoldable pub swarm_script : Bytes → Bytes → Bytes
swarm_script remote_pub intent =
    text "network:swarm_ingress(intent(\""
    ++ intent
    ++ text "\") node(\""
    ++ encode_hex (take 4 remote_pub)
    ++ text "\"))"

unfoldable pub swarm_invocation : Bytes → DataInvocation
swarm_invocation remote_pub = record {
  target_address = text "swarm:ingress:policy";
  caller = encode_hex remote_pub;
  nonce = 0;
  method = text "EVALUATE_SWARM";
  profile = grant;
  args = [];
}

module _ {S : Type 0} where
  unfoldable pub new_peer_route : PeerRoute S
  new_peer_route = record { handlers = []; access_policies = []; peers = [] }

  unfoldable pub register_handler : Bytes → Handler S PeerMessage → PeerRoute S → PeerRoute S
  register_handler route h pr = record pr { handlers = insert route h pr.handlers }

  -- The handler's own error is returned.
  abbrev outcome : S × Option Bytes → S × Option RouteError
  outcome (s, none) = (s, none)
  outcome (s, some e) = (s, some (handler_failed e))

  unfoldable pub dispatch : PeerRoute S → PeerMessage → S → S × Option RouteError
  dispatch pr msg s = elim (lookup msg.route pr.handlers) [
    | none ↦ (s, some no_handler)
    | some handler ↦ outcome (handler msg s)
  ]

  unfoldable pub handle_ingress : JsonText → PeerRoute S → Bytes → S → S × Option RouteError
  unfolding dispatch
  handle_ingress j pr payload s = elim (unmarshal_peer_message j payload) [
    | none ↦ (s, some malformed)
    | some msg ↦ dispatch pr msg s
  ]

  unfoldable pub add_peer : Store → ℕ → PeerRoute S → PeerRoute S
  add_peer store peer pr = record pr {
    peers = insert (encode_hex (store peer).node_id) peer pr.peers;
  }

  unfoldable pub remove_peer : Bytes → PeerRoute S → PeerRoute S
  remove_peer id pr = record pr {
    peers = delete (encode_hex id) pr.peers;
    access_policies = delete id pr.access_policies;
  }

  unfoldable pub get_access_policy : Bytes → PeerRoute S → AccessPolicy
  get_access_policy id pr = elim (lookup id pr.access_policies) [ none ↦ deny | some p ↦ p ]

  unfoldable pub set_access_policy : Bytes → AccessPolicy → PeerRoute S → PeerRoute S
  set_access_policy id policy pr = record pr {
    access_policies = insert id policy pr.access_policies;
  }

  unfoldable pub has_peer : Bytes → PeerRoute S → Bool
  has_peer id pr = is_some (lookup (encode_hex id) pr.peers)

  -- The reference, if there is one.
  unfoldable pub get_peer : Bytes → PeerRoute S → Option ℕ
  get_peer id pr = lookup (encode_hex id) pr.peers

  unfoldable pub list_peers : PeerRoute S → List ℕ
  list_peers pr = map (λ e. e.1) pr.peers

  unfoldable pub peer_count : PeerRoute S → ℕ
  peer_count pr = length pr.peers

  -- TouchPeer writes to the shared object.
  unfoldable pub touch_peer : ℕ → Bytes → PeerRoute S → Store → Store
  touch_peer now id pr store = touched now store (lookup (encode_hex id) pr.peers)

  -- EvaluateSwarmHandshake, on a route with a mesh node, whose SDF engine it asks: `err e`
  -- stands for the pair of false and the error.
  pub evaluate_swarm_handshake :
      Engine S → PeerRoute S → Bytes → Bytes → S → S × Result HandshakeError Bool
  evaluate_swarm_handshake compile pr remote_pub intent s =
      let (s', allowed) =
        compile (swarm_script remote_pub intent) (swarm_invocation remote_pub) s in
      if ltb (length remote_pub) 32
      then (s, err bad_length)
      else if not allowed
      then (s', err engine_refused)
      else (s', decide_on (lookup (take 32 remote_pub) pr.access_policies) intent)

unfoldable pub mesh_connected : (net : Transport) → Option (MeshNode net) → Bool
mesh_connected net none = false
mesh_connected net (some m) = connected net m

-- SignMessage: an empty key is an error, and `sign` is ed25519.Sign.
unfoldable pub sign_message :
    (Bytes → Bytes) → (Bytes → Bytes → Bytes) → Bytes → Bytes → Bytes → Option Bytes
sign_message sha256 sign service_id payload priv =
    if is_empty priv then none else some (sign priv (sha256 (service_id ++ payload)))

module _ (net : Transport) (j : JsonText) (sha256 : Bytes → Bytes) (now : ℕ) where
  unfoldable pub peer_message : Bytes → Bytes → Bytes → Bytes → PeerMessage
  peer_message hashed route payload origin = record {
    id = encode_hex (sha256 (hashed ++ payload));
    route = route;
    payload = payload;
    origin = origin;
    timestamp = now;
  }

  abbrev pub send_result : MeshNode net × Option SendError → MeshNode net × Option RouteError
  send_result (m, none) = (m, none)
  send_result (m, some e) = (m, some (send_failed e))

  abbrev pub rpc_action : PeerMessage → ApiPayload
  rpc_action msg = record {
    action = text "rpc";
    content = marshal_peer_message j msg;
    target = [];
    value = 0;
  }

  unfoldable pub broadcast :
      Option (MeshNode net) → Bytes → Bytes → Option (MeshNode net) × Option RouteError
  unfolding peer_message
  broadcast none route payload = (none, some no_node)
  broadcast (some m) route payload =
      let (m', e) =
        send_result
          (send_action net j m (rpc_action (peer_message route route payload m.noise_pub))) in
      if connected net m then (some m', e) else (some m, some not_connected)

  unfoldable pub send_to_peer :
      Option (MeshNode net) → Bytes → Bytes → Bytes → Option (MeshNode net) × Option RouteError
  unfolding peer_message
  send_to_peer none peer_id route payload = (none, some no_node)
  send_to_peer (some m) peer_id route payload =
      let (m', e) =
        send_result
          (send_action net j m (rpc_action (peer_message peer_id route payload m.noise_pub))) in
      (some m', e)
