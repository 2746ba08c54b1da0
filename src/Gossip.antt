-- ===== src/Gossip.antt =====
-- gossip.go: the gossip manager. A time is a number of nanoseconds, and the readings of time.Now
-- within one call are one value. Its lock makes each call's section one step.
pub mod Replay
pub mod Clock
pub mod Ingress
pub mod Refinement
pub mod Service
pub mod Exchange
mod Tests
use secure_network.Prelude.{
  ℕ, ◌+◌, ◌-◌, ◌*◌, ◌%◌, ◌^◌, Bool, true, false, not, List, [], ◌∷◌, ◌++◌, Option, none, some,
  Bytes, text, length, ltb, if◌then◌else◌, Map, lookup, insert, retain,
}
use secure_network.Strings.Decimal.{decimal}
use secure_network.Json.{JsonText}
use secure_network.Wire.{GossipEnvelope, marshal_gossip_envelope, unmarshal_gossip_envelope}
use secure_network.Platform.{
  Transport, DataInvocation, int_arg, text_arg, Engine, Handler, proof_of_poss,
}
use secure_network.Mesh.{MeshNode}
use secure_network.PeerRoute.{RouteError, broadcast}

pub record GossipManager (S : Type 0) : Type 0 where
  pub handlers : Map (Handler S GossipEnvelope)
  pub seen : Map ℕ
  pub lamport : ℕ

pub data IngressError : Type 0 where
  malformed engine_refused : IngressError
  handler_failed : Bytes → IngressError

-- time.Hour
abbrev pub hour : ℕ
hour = 3600 * 1_000_000_000

-- The guard of HandleIngress: the id was seen less than an hour ago.
unfoldable pub is_duplicate : ℕ → Bytes → Map ℕ → Bool
is_duplicate now id seen = elim (lookup id seen) [ none ↦ false | some ts ↦ ltb (now - ts) hour ]

pub frame_script : GossipEnvelope → Bytes
frame_script env =
    text "gossip:frame(service(\""
    ++ (env.service_id ++ (text "\") lamport(" ++ (decimal env.lamport ++ text "))")))

pub frame_invocation : GossipEnvelope → DataInvocation
frame_invocation env = record {
  target_address = text "gossip:ingress:validation";
  caller = env.service_id;
  nonce = env.lamport;
  method = text "VERIFY_GOSSIP_ROW";
  profile = proof_of_poss;
  args =
      (text "payload_len", int_arg (length env.payload))
      ∷ (text "signature", text_arg env.signature)
      ∷ [];
}

unfoldable pub envelope : ℕ → Bytes → Bytes → Bytes → ℕ → GossipEnvelope
envelope now service payload signature lamport = record {
  id = service ++ (text "-" ++ decimal now);
  service_id = service;
  payload = payload;
  signature = signature;
  lamport = lamport;
  origin = [];
  received_at = now;
}

module _ {S : Type 0} where
  unfoldable pub new_gossip_manager : GossipManager S
  new_gossip_manager = record { handlers = []; seen = []; lamport = 0 }

  unfoldable pub register_handler :
      Bytes → Handler S GossipEnvelope → GossipManager S → GossipManager S
  register_handler service h gm = record gm { handlers = insert service h gm.handlers }

  -- The locked section of HandleIngress for an envelope that is no duplicate.
  pub observe : ℕ → GossipEnvelope → GossipManager S → GossipManager S
  observe now env gm = record gm {
    seen = insert env.id now gm.seen;
    lamport = ((if ltb gm.lamport env.lamport then env.lamport else gm.lamport) + 1) % 2 ^ 64;
  }

  abbrev outcome : S × Option Bytes → S × Option IngressError
  outcome (s, none) = (s, none)
  outcome (s, some e) = (s, some (handler_failed e))

  deliver : GossipManager S → GossipEnvelope → S → S × Option IngressError
  deliver gm env s = elim (lookup env.service_id gm.handlers) [
    | none ↦ (s, none)
    | some handler ↦ outcome (handler env s)
  ]

  -- The check by the SDF engine, which is left out where there is no peer route or no mesh node.
  pub checked : Engine S → Bool → GossipManager S → GossipEnvelope → S → S × Option IngressError
  unfolding deliver
  checked compile verified gm env s =
      let (s', allowed) = compile (frame_script env) (frame_invocation env) s in
      if not verified
      then deliver gm env s
      else if allowed
      then deliver gm env s'
      else (s', some engine_refused)

  accept :
      Engine S
      → Bool
      → ℕ
      → GossipManager S
      → GossipEnvelope
      → S
      → GossipManager S × S × Option IngressError
  accept compile verified now gm env s =
      let (s', e) = checked compile verified (observe now env gm) env s in
      if is_duplicate now env.id gm.seen then (gm, s, none) else (observe now env gm, s', e)

  -- HandleIngress: the manager, the state and the returned error.
  pub handle_ingress :
      JsonText
      → Engine S
      → Bool
      → ℕ
      → Bytes
      → GossipManager S
      → S
      → GossipManager S × S × Option IngressError
  unfolding accept observe
  handle_ingress j compile verified now payload gm s = elim (unmarshal_gossip_envelope j payload) [
    | none ↦ (gm, s, some malformed)
    | some env ↦ accept compile verified now gm env s
  ]

  -- CleanupSeenCache: what is older than an hour goes. The times are compared by a sum, since a
  -- time.Time may lie before any origin.
  unfoldable pub cleanup_seen_cache : ℕ → GossipManager S → GossipManager S
  cleanup_seen_cache now gm = record gm { seen = retain (λ ts. not (ltb (ts + hour) now)) gm.seen }

  unfoldable pub seen_count : GossipManager S → ℕ
  seen_count gm = length gm.seen

  unfoldable pub get_lamport : GossipManager S → ℕ
  get_lamport gm = gm.lamport

  unfoldable pub tick : GossipManager S → GossipManager S
  tick gm = record gm { lamport = (gm.lamport + 1) % 2 ^ 64 }

module _ (net : Transport) (j : JsonText) (sha256 : Bytes → Bytes) where
  -- Broadcast of the peer route, if there is one; it may have no mesh node.
  unfoldable pub send_gossip :
      ℕ
      → Bytes
      → Option (Option (MeshNode net))
      → Option (Option (MeshNode net)) × Option RouteError
  send_gossip now raw none = (none, none)
  send_gossip now raw (some node) =
      let (node', e) = broadcast net j sha256 now node (text "gossip") raw in (some node', e)

  -- Publish: the manager, the mesh node behind the peer route and the returned error.
  unfoldable pub publish :
      {S : Type 0}
      → ℕ
      → Bytes
      → Bytes
      → Bytes
      → GossipManager S
      → Option (Option (MeshNode net))
      → GossipManager S × Option (Option (MeshNode net)) × Option RouteError
  publish now service payload signature gm node =
      let gm' = tick gm in
      let raw = marshal_gossip_envelope j (envelope now service payload signature gm'.lamport) in
      let (node', e) = send_gossip now raw node in (gm', node', e)
