-- ===== src/Gossip/Clock.antt =====
-- The Lamport clock.
use secure_network.Prelude.{
  ℕ, ◌+◌, ◌-◌, ◌%◌, ◌^◌, ◌<◌, ◌≤◌, ◌≡◌, refl, Bool, false, Option, none, some, arith, Bytes, text,
}
use secure_network.Json.{JsonText}
use secure_network.Wire.{GossipEnvelope, unmarshal_gossip_envelope, marshal_gossip_envelope}
use secure_network.Platform.{Transport, Engine}
use secure_network.Mesh.{MeshNode}
use secure_network.PeerRoute.{broadcast}
use secure_network.Gossip.Ingress.{handle_ingress-fresh}
use secure_network.Gossip.{
  GossipManager, is_duplicate, observe, handle_ingress, publish, tick, send_gossip, envelope,
}

abbrev pub max_clock : ℕ
max_clock = 2 ^ 64 - 1

module _ {S : Type 0} (j : JsonText) (compile : Engine S) (verified : Bool) (now : ℕ)
    (payload : Bytes) (env : GossipEnvelope) (gm : GossipManager S) (s : S)
    (parsed : unmarshal_gossip_envelope j payload ≡ some env)
    (fresh : is_duplicate now env.id gm.seen ≡ false) where
  -- An envelope that is no duplicate moves the clock past both its own time and the clock's old
  -- value, whether or not the SDF engine then allows it, if neither is the largest uint64.
  pub handle_ingress-clock :
      gm.lamport < max_clock
      → env.lamport < max_clock
      → let gm' = (handle_ingress j compile verified now payload gm s).0 in
        (gm.lamport < gm'.lamport) × (env.lamport < gm'.lamport) × (gm'.lamport ≤ max_clock)
  unfolding observe
  handle_ingress-clock small small' =
      rw (handle_ingress-fresh j compile verified now payload gm s env parsed fresh) (ground arith)

  -- An envelope that claims the largest uint64 sets the clock back to zero, whatever it was, also if
  -- the SDF engine then refuses the envelope.
  pub handle_ingress-clock_wraps :
      gm.lamport ≤ max_clock
      → env.lamport ≡ max_clock
      → (handle_ingress j compile verified now payload gm s).0.lamport ≡ 0
  unfolding observe
  handle_ingress-clock_wraps small e =
      rw (handle_ingress-fresh j compile verified now payload gm s env parsed fresh) (ground arith)

-- Publish moves the clock forward by one, and the envelope that it broadcasts carries the new value,
-- if the clock is not at the largest uint64. Without a peer route it returns nil, and with one the
-- error of its broadcast of the marshalled envelope on the route "gossip".
pub publish-clock :
    {S : Type 0} (net : Transport) (j : JsonText) (sha256 : Bytes → Bytes) (now : ℕ)
    (service payload signature : Bytes) (gm : GossipManager S) (mesh : Option (MeshNode net))
    → gm.lamport < max_clock
    → let env = envelope now service payload signature (gm.lamport + 1) in
      let raw = marshal_gossip_envelope j env in
      let sent = broadcast net j sha256 now mesh (text "gossip") raw in
      (publish net j sha256 now service payload signature gm none
        ≡ (record gm { lamport = gm.lamport + 1 }, none, none))
      × (publish net j sha256 now service payload signature gm (some mesh)
          ≡ (record gm { lamport = gm.lamport + 1 }, some sent.0, sent.1))
unfolding publish tick send_gossip
publish-clock net j sha256 now service payload signature gm mesh small =
    let next : (gm.lamport + 1) % 2 ^ 64 ≡ gm.lamport + 1 = omega arith in rw next (refl, refl)
