-- ===== src/PeerRoute/Access.antt =====
-- Access policies: what a handshake is granted, and when.
use secure_network.Prelude.{
  ◌≤◌, ◌<◌, ◌≡◌, refl, subst, ◌↔◌, ◌∙◌, ◌⊎◌, ◌≢◌, Bool, true, false, Option, none, some, arith,
  Bytes, text, length, take, eq_iff, eq_refl, lookup, lookup-insert, lookup-delete, ok, err,
}
use secure_network.Strings.Hex.{encode_hex}
use secure_network.Platform.{Engine}
use secure_network.PeerRoute.{
  AccessPolicy, deny, read_only, see, write, admin, PeerRoute, bad_length, engine_refused,
  no_mapping, explicitly_denied, intent_rejected, decide, decide_on, swarm_script, swarm_invocation,
  evaluate_swarm_handshake, get_access_policy, set_access_policy, remove_peer, has_peer,
}

-- The intents that each policy grants.
abbrev pub Grants : AccessPolicy → Bytes → Type 0
Grants admin intent = Unit
Grants see intent = Unit
Grants write intent =
    (intent ≡ text "WRITE_INTENT") ⊎ (intent ≡ text "READ_INTENT") ⊎ (intent ≡ text "S2P_PULL")
Grants read_only intent = (intent ≡ text "READ_INTENT") ⊎ (intent ≡ text "S2P_PULL")
Grants deny intent = ⊥

decide_iff : (p : AccessPolicy) (intent : Bytes) → (decide p intent ≡ ok true) ↔ Grants p intent
unfolding decide
decide_iff admin intent = (λ _. tt, λ _. refl)
decide_iff see intent = (λ _. tt, λ _. refl)
decide_iff write intent = ground (
  arith,
  eq_iff intent (text "WRITE_INTENT"),
  eq_iff intent (text "READ_INTENT"),
  eq_iff intent (text "S2P_PULL"),
)
decide_iff read_only intent =
    ground (arith, eq_iff intent (text "READ_INTENT"), eq_iff intent (text "S2P_PULL"))
decide_iff deny intent = ground arith

decide-ne-false : (p : AccessPolicy) (intent : Bytes) → decide p intent ≢ ok false
unfolding decide
decide-ne-false admin intent = ground arith
decide-ne-false p intent = ground arith

decide_write_refused :
    (intent : Bytes) → ¬ Grants write intent → decide write intent ≡ err intent_rejected
unfolding decide
decide_write_refused intent h = ground (
  arith,
  eq_iff intent (text "WRITE_INTENT"),
  eq_iff intent (text "READ_INTENT"),
  eq_iff intent (text "S2P_PULL"),
)

decide_on_iff :
    (o : Option AccessPolicy) (intent : Bytes) (b : Bool)
    → (decide_on o intent ≡ ok b)
      ↔ ((b ≡ true) × ((p : AccessPolicy) × (o ≡ some p) × Grants p intent))
unfolding decide_on
decide_on_iff none intent b = (λ e. cc, λ (_, (p, e, _)). cc)
decide_on_iff (some p) intent true = (
  λ e. (refl, (p, refl, (decide_iff p intent).0 e)),
  λ (_, (q, e, g)). (decide_iff p intent).1 (subst (λ r. Grants r intent) (cc) g),
)
decide_on_iff (some p) intent false = (λ e. absurd (decide-ne-false p intent e), λ h. cc)

module _ {S : Type 0} (compile : Engine S) (pr : PeerRoute S) (remote_pub intent : Bytes)
    (s : S) where
  -- What the SDF engine answers to the script and the invocation of the handshake.
  abbrev pub engine_allows : Bool
  engine_allows = (compile (swarm_script remote_pub intent) (swarm_invocation remote_pub) s).1

  -- The handshake is granted exactly when the remote key has at least 32 bytes, the SDF engine
  -- allows the script, and the policy that is set for its first 32 bytes grants the intent: admin
  -- and see grant every intent, write the three known ones, read-only reading and pulling, deny
  -- none. It never returns false without an error.
  pub evaluate_swarm_handshake_iff :
      (b : Bool)
      → ((evaluate_swarm_handshake compile pr remote_pub intent s).1 ≡ ok b) ↔ (
          (b ≡ true)
          × (32 ≤ length remote_pub)
          × (engine_allows ≡ true)
          × ((p : AccessPolicy) × (lookup (take 32 remote_pub) pr.access_policies ≡ some p)
              × Grants p intent))
  unfolding evaluate_swarm_handshake
  evaluate_swarm_handshake_iff b =
      let (to, from) = decide_on_iff (lookup (take 32 remote_pub) pr.access_policies) intent b in
      (λ e. ground arith, λ (yes_b, long, allowed, granted). ground (arith, from (yes_b, granted)))

  -- The errors come in the order of the checks, and the engine is not asked about a short key.
  pub evaluate_swarm_handshake-errors :
      (length remote_pub < 32
        → evaluate_swarm_handshake compile pr remote_pub intent s ≡ (s, err bad_length))
      × (32 ≤ length remote_pub
          → engine_allows ≡ false
          → (evaluate_swarm_handshake compile pr remote_pub intent s).1 ≡ err engine_refused)
      × (32 ≤ length remote_pub
          → engine_allows ≡ true
          → lookup (take 32 remote_pub) pr.access_policies ≡ none
          → (evaluate_swarm_handshake compile pr remote_pub intent s).1 ≡ err no_mapping)
      × (32 ≤ length remote_pub
          → engine_allows ≡ true
          → lookup (take 32 remote_pub) pr.access_policies ≡ some deny
          → (evaluate_swarm_handshake compile pr remote_pub intent s).1 ≡ err explicitly_denied)
  unfolding evaluate_swarm_handshake decide_on decide
  evaluate_swarm_handshake-errors = (
    λ short. ground arith,
    λ long refused. ground arith,
    λ long allowed e. ground arith,
    λ long allowed e. ground arith,
  )

module _ {S : Type 0} (compile : Engine S) (pr : PeerRoute S) (remote_pub intent : Bytes) (s : S)
    (long : 32 ≤ length remote_pub)
    (allowed : engine_allows compile pr remote_pub intent s ≡ true) where
  -- RemovePeer revokes: where the engine allows the script, a handshake of the removed node's key
  -- then fails for want of a policy, whatever was set before, and GetAccessPolicy gives deny.
  pub remove_peer-revokes :
      let pr' = remove_peer (take 32 remote_pub) pr in
      ((evaluate_swarm_handshake compile pr' remote_pub intent s).1 ≡ err no_mapping)
      × (get_access_policy (take 32 remote_pub) pr' ≡ deny)
      × (has_peer (take 32 remote_pub) pr' ≡ false)
  unfolding remove_peer get_access_policy has_peer
  remove_peer-revokes = ground (
    arith,
    (evaluate_swarm_handshake-errors compile (remove_peer (take 32 remote_pub) pr) remote_pub intent
        s).2,
    lookup-delete (take 32 remote_pub) (take 32 remote_pub) pr.access_policies,
    lookup-delete (encode_hex (take 32 remote_pub)) (encode_hex (take 32 remote_pub)) pr.peers,
    eq_refl (take 32 remote_pub),
    eq_refl (encode_hex (take 32 remote_pub)),
  )

  -- After SetAccessPolicy the handshake is decided by the policy that was set.
  evaluate_swarm_handshake-set :
      (p : AccessPolicy)
      → (evaluate_swarm_handshake compile
          (set_access_policy (take 32 remote_pub) p pr)
          remote_pub
          intent
          s).1
        ≡ decide p intent
  unfolding evaluate_swarm_handshake set_access_policy decide_on
  evaluate_swarm_handshake-set p = ground (
    arith,
    lookup-insert (take 32 remote_pub) (take 32 remote_pub) p pr.access_policies,
    eq_refl (take 32 remote_pub),
  )

  -- The policy see is no weaker than write: where the engine allows the script and see is set for
  -- the node, a handshake is granted whatever its intent, WRITE_INTENT included, while write refuses
  -- every intent but its three.
  pub evaluate_swarm_handshake-see :
      ((evaluate_swarm_handshake compile
          (set_access_policy (take 32 remote_pub) see pr)
          remote_pub
          intent
          s).1
        ≡ ok true)
      × (¬ Grants write intent
          → (evaluate_swarm_handshake compile
              (set_access_policy (take 32 remote_pub) write pr)
              remote_pub
              intent
              s).1
            ≡ err intent_rejected)
  evaluate_swarm_handshake-see = (
    evaluate_swarm_handshake-set see ∙ (decide_iff see intent).1 tt,
    λ ungranted. evaluate_swarm_handshake-set write ∙ decide_write_refused intent ungranted,
  )
