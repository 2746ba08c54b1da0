-- ===== src/Gossip/Tests.antt =====
-- The gossip manager's theorems at concrete envelopes.
use secure_network.Prelude.{
  ℕ, ◌+◌, ◌≡◌, refl, true, false, List, [], ◌∷◌, Option, none, some, arith, Bytes, text, ◌==◌,
  lookup,
}
use secure_network.Strings.{to_lower}
use secure_network.Strings.Base64.{encode_base64, decode_base64}
use secure_network.Json.Sample.{sample, sample_print, sample_parse, sample_time, unary}
use secure_network.Wire.{GossipEnvelope, marshal_gossip_envelope, unmarshal_gossip_envelope}
use secure_network.Platform.{Transport, Engine, Handler}
use secure_network.Mesh.{MeshNode}
use secure_network.Gossip.{GossipManager, hour, is_duplicate, handle_ingress}
use secure_network.Gossip.Ingress.{IsSound}
use secure_network.Gossip.Clock.{max_clock}
use secure_network.Gossip.Service.{expected}
use secure_network.Gossip.Refinement.{outcomes, memory_of, memory_of-Implements, outcomes-expected}
use secure_network.Gossip.Replay.{Call, receives, sweeps, publishes, reached, handle_ingress-replay}

abbrev allow_all : Engine ℕ
allow_all script tx s = (s, true)

abbrev refuse_all : Engine ℕ
refuse_all script tx s = (s, false)

-- The state counts the envelopes that a handler saw.
abbrev count_up : Handler ℕ GossipEnvelope
count_up env s = (s + 1, none)

abbrev update : ℕ → GossipEnvelope
update lamport = record {
  id = text "u9";
  service_id = text "svc";
  payload = text "ok";
  signature = [];
  lamport = lamport;
  origin = [];
  received_at = 1;
}

abbrev manager : GossipManager ℕ
manager = record { handlers = (text "svc", count_up) ∷ []; seen = []; lamport = 4 }

abbrev raw : ℕ → Bytes
raw lamport = marshal_gossip_envelope sample (update lamport)

update_parses : unmarshal_gossip_envelope sample (raw 5) ≡ some (update 5)
unfolding unmarshal_gossip_envelope marshal_gossip_envelope sample_print sample_parse sample_time
    unary to_lower ◌==◌ encode_base64 decode_base64
update_parses = refl

latest_parses : unmarshal_gossip_envelope sample (raw max_clock) ≡ some (update max_clock)
unfolding unmarshal_gossip_envelope marshal_gossip_envelope sample_print sample_parse sample_time
    unary to_lower ◌==◌ encode_base64 decode_base64
latest_parses = refl

manager-fresh : is_duplicate 100 (text "u9") manager.seen ≡ false
unfolding is_duplicate lookup
manager-fresh = refl

manager-handler : lookup (text "svc") manager.handlers ≡ some count_up
unfolding lookup ◌==◌
manager-handler = refl

manager-IsSound : IsSound manager
manager-IsSound = record { distinct = tt; bounded = omega arith }

abbrev node_free : Transport
node_free = record {
  Stream = Bytes;
  Fault = Unit {0};
  write = λ w p. (w, none);
  Cipher = ℕ;
  encrypt = λ c p. (some p, c);
  decrypt = λ c p. (some p, c);
}

abbrev no_mesh : Option (MeshNode node_free)
no_mesh = none

abbrev between : List (ℕ × Call ℕ)
between = (150, sweeps) ∷ (200, receives (raw 5)) ∷ (300, publishes) ∷ []

handle_ingress-replay_example :
    let (gm, s) =
      reached sample allow_all true 100 900
        (raw 5)
        (raw 5)
        (update 5)
        (update 5)
        manager
        0
        between
        manager-IsSound
        update_parses
        update_parses
        refl
        manager-fresh
        (omega arith)
        (omega arith) in
    handle_ingress sample allow_all true 900 (raw 5) gm s ≡ (gm, s, none)
handle_ingress-replay_example =
    handle_ingress-replay sample allow_all true 100 900 (raw 5) (raw 5) (update 5) (update 5)
      manager 0 between manager-IsSound update_parses update_parses refl manager-fresh (omega arith)
      (omega arith)

-- A cleanup that drops an entry lies between.
abbrev swept : List (ℕ × Call ℕ)
swept = (100, receives (raw 5)) ∷ (hour + 200, sweeps) ∷ (hour + 300, receives (raw 5)) ∷ []

outcomes-expected_example :
    outcomes sample allow_all true swept manager 0
    ≡ expected sample allow_all true swept (memory_of sample allow_all true manager) 0
outcomes-expected_example =
    outcomes-expected sample allow_all true 0 swept manager
      (memory_of sample allow_all true manager) 0
      (memory_of-Implements sample allow_all true 0 manager tt)
      (omega arith, (omega arith, (omega arith, tt)))
