-- ===== src/PeerRoute/Tests.antt =====
-- The peer route's theorems at concrete nodes.
use secure_network.Prelude.{
  ℕ, ◌≡◌, refl, ◌↔◌, ◌≤◌, Bool, true, false, [], ◌∷◌, some, arith, Bytes, text, length, take, ◌==◌,
  lookup, ok, err,
}
use secure_network.Platform.{Engine}
use secure_network.PeerRoute.{
  AccessPolicy, deny, read_only, see, write, admin, PeerIdentity, Store, PeerRoute, HandshakeError,
  bad_length, engine_refused, no_mapping, intent_rejected, evaluate_swarm_handshake,
  get_access_policy, set_access_policy, remove_peer, has_peer, get_peer, add_peer, touch_peer,
  peer_count, new_peer_route, parse_access_policy, access_policy_name, swarm_script,
  swarm_invocation,
}
use secure_network.PeerRoute.Access.{
  Grants, engine_allows, evaluate_swarm_handshake_iff, remove_peer-revokes,
}
use secure_network.PeerRoute.Registry.{IsIndexed, operations-IsIndexed}

-- A state of the world outside that only counts.
abbrev allow_all : Engine ℕ
allow_all script tx s = (s, true)

abbrev key_text : Bytes
key_text = text "0123456789abcdef0123456789abcdef!"

abbrev node_key : Bytes
node_key = text "0123456789abcdef0123456789abcdef"

abbrev route : PeerRoute ℕ
route = record {
  handlers = [];
  access_policies = (node_key, write) ∷ [];
  peers = (text "6131", 0) ∷ [];
}

abbrev first_peer : PeerIdentity
first_peer = record {
  node_id = text "a1";
  public_key = [];
  address = text "10.0.0.5";
  last_seen = 3;
}

abbrev store : Store
store q = first_peer

evaluate_swarm_handshake_test :
    (evaluate_swarm_handshake allow_all route key_text (text "WRITE_INTENT") 7 ≡ (7, ok true))
    × (evaluate_swarm_handshake allow_all route key_text (text "ADMIN") 7
        ≡ (7, err intent_rejected))
    × (evaluate_swarm_handshake allow_all route (text "short") (text "ADMIN") 7
        ≡ (7, err bad_length))
unfolding evaluate_swarm_handshake secure_network.PeerRoute.decide_on lookup ◌==◌
evaluate_swarm_handshake_test = (refl, refl, refl)

evaluate_swarm_handshake_iff_example :
    ((evaluate_swarm_handshake allow_all route key_text (text "WRITE_INTENT") 7).1 ≡ ok true) ↔ (
      (◌≡◌ {A = Bool} true true)
      × (32 ≤ length key_text)
      × (engine_allows allow_all route key_text (text "WRITE_INTENT") 7 ≡ true)
      × ((p : AccessPolicy) × (lookup (take 32 key_text) route.access_policies ≡ some p)
          × Grants p (text "WRITE_INTENT")))
evaluate_swarm_handshake_iff_example =
    evaluate_swarm_handshake_iff allow_all route key_text (text "WRITE_INTENT") 7 true

remove_peer-revokes_example :
    ((evaluate_swarm_handshake allow_all
        (remove_peer node_key route)
        key_text
        (text "READ_INTENT")
        7).1
      ≡ err no_mapping)
    × (get_access_policy node_key (remove_peer node_key route) ≡ deny)
    × (has_peer node_key (remove_peer node_key route) ≡ false)
remove_peer-revokes_example =
    remove_peer-revokes allow_all route key_text (text "READ_INTENT") 7 (omega arith) refl

abbrev empty_route : PeerRoute ℕ
empty_route = record { handlers = []; access_policies = []; peers = [] }

operations-IsIndexed_example :
    IsIndexed {S = ℕ} store new_peer_route
    × ((pr : PeerRoute ℕ)
        → IsIndexed store pr
        → ((peer : ℕ) → IsIndexed store (add_peer store peer pr))
          × ((id : Bytes) → IsIndexed store (remove_peer id pr))
          × ((now : ℕ) (id : Bytes) → IsIndexed (touch_peer now id pr store) pr))
operations-IsIndexed_example = operations-IsIndexed store
