-- ===== src/Gossip/Ingress.antt =====
-- HandleIngress, branch by branch.
use secure_network.Prelude.{
  ℕ, ◌+◌, ◌^◌, ◌<◌, ◌≡◌, refl, ◌∙◌, Bool, true, false, not, none, some, arith, Bytes, ltb, lookup,
  IsDistinct, insert-IsDistinct, retain-IsDistinct, lookup-retain, lookup-insert_self, ◌≤◌,
  Option-cases, Bool-cases,
}
use mathlib.Core.Option
use mathlib.Core.Logic.{inl, inr}
use secure_network.Json.{JsonText}
use secure_network.Wire.{GossipEnvelope, unmarshal_gossip_envelope}
use secure_network.Platform.{Engine, Handler}
use secure_network.Gossip.{
  GossipManager, malformed, engine_refused, handler_failed, hour, is_duplicate, observe, deliver,
  checked, accept, handle_ingress, cleanup_seen_cache, frame_script, frame_invocation,
}

module _ {S : Type 0} (j : JsonText) (compile : Engine S) (verified : Bool) (now : ℕ)
    (payload : Bytes) (gm : GossipManager S) (s : S) where
  pub handle_ingress-malformed :
      unmarshal_gossip_envelope j payload ≡ none
      → handle_ingress j compile verified now payload gm s ≡ (gm, s, some malformed)
  unfolding handle_ingress
  handle_ingress-malformed e = rw (e, handle_ingress)

  module _ (env : GossipEnvelope) (parsed : unmarshal_gossip_envelope j payload ≡ some env) where
    pub handle_ingress-duplicate :
        is_duplicate now env.id gm.seen ≡ true
        → handle_ingress j compile verified now payload gm s ≡ (gm, s, none)
    unfolding handle_ingress accept
    handle_ingress-duplicate e = rw (parsed, handle_ingress) (rw e)

    pub handle_ingress-fresh :
        is_duplicate now env.id gm.seen ≡ false
        → handle_ingress j compile verified now payload gm s ≡ (
            let (s', e) = checked compile verified (observe now env gm) env s in
            (observe now env gm, s', e))
    unfolding handle_ingress accept
    handle_ingress-fresh e = rw (parsed, handle_ingress) (rw e)

module _ {S : Type 0} (j : JsonText) (compile : Engine S) (verified : Bool) (now : ℕ)
    (payload : Bytes) (gm : GossipManager S) (s : S) (env : GossipEnvelope)
    (handler : Handler S GossipEnvelope) (parsed : unmarshal_gossip_envelope j payload ≡ some env)
    (found : lookup env.service_id gm.handlers ≡ some handler) where
  -- The handler of the envelope's service runs, on the state that the SDF engine left, exactly where
  -- the envelope is no duplicate and the engine allows it or is not asked; its error is returned. A
  -- duplicate changes nothing and returns nil. Where the engine refuses, the handler does not run,
  -- but the envelope's id counts as seen all the same.
  pub handle_ingress-handler :
      let asked = compile (frame_script env) (frame_invocation env) s in
      let fresh = is_duplicate now env.id gm.seen ≡ false in
      let result = handle_ingress j compile verified now payload gm s in
      (is_duplicate now env.id gm.seen ≡ true → result ≡ (gm, s, none))
      × (fresh
          → verified ≡ false
          → (result.1 ≡ (handler env s).0)
            × (result.2 ≡ Option.map handler_failed (handler env s).1))
      × (fresh
          → verified ≡ true
          → asked.1 ≡ true
          → (result.1 ≡ (handler env asked.0).0)
            × (result.2 ≡ Option.map handler_failed (handler env asked.0).1))
      × (fresh
          → verified ≡ true
          → asked.1 ≡ false
          → (result.1 ≡ asked.0)
            × (result.2 ≡ some engine_refused)
            × (lookup env.id result.0.seen ≡ some now))
  unfolding checked deliver observe
  handle_ingress-handler = (
    handle_ingress-duplicate j compile verified now payload gm s env parsed,
    λ fresh off.
        rw (handle_ingress-fresh j compile verified now payload gm s env parsed fresh)
          (ground arith),
    λ fresh on allowed.
        rw (handle_ingress-fresh j compile verified now payload gm s env parsed fresh)
          (ground arith),
    λ fresh on refused.
        rw (handle_ingress-fresh j compile verified now payload gm s env parsed fresh)
          (ground (arith, lookup-insert_self env.id now gm.seen)),
  )

-- What each call keeps: no id is held twice, and the clock is a uint64.
pub record IsSound {S : Type 0} (gm : GossipManager S) : Type 0 where
  pub distinct : IsDistinct gm.seen
  pub bounded : gm.lamport < 2 ^ 64

pub observe-IsSound :
    {S : Type 0} (now : ℕ) (env : GossipEnvelope) (gm : GossipManager S)
    → IsSound gm
    → IsSound (observe now env gm)
unfolding observe
observe-IsSound now env gm v = record {
  distinct = insert-IsDistinct env.id now gm.seen v.distinct;
  bounded = omega arith;
}

pub handle_ingress-IsSound :
    {S : Type 0} (j : JsonText) (compile : Engine S) (verified : Bool) (now : ℕ) (payload : Bytes)
    (gm : GossipManager S) (s : S)
    → IsSound gm
    → IsSound (handle_ingress j compile verified now payload gm s).0
unfolding handle_ingress accept
handle_ingress-IsSound j compile verified now payload gm s v =
    elim (Option-cases (unmarshal_gossip_envelope j payload)) [
      | inl bad ↦ rw (bad, handle_ingress) v
      | inr (env, parsed) ↦ elim (Bool-cases (is_duplicate now env.id gm.seen)) [
        | inl again ↦
            rw (handle_ingress-duplicate j compile verified now payload gm s env parsed again) v
        | inr fresh ↦
            rw (handle_ingress-fresh j compile verified now payload gm s env parsed fresh)
              (observe-IsSound now env gm v)
      ]
    ]

pub cleanup_seen_cache-IsSound :
    {S : Type 0} (now : ℕ) (gm : GossipManager S) → IsSound gm → IsSound (cleanup_seen_cache now gm)
unfolding cleanup_seen_cache
cleanup_seen_cache-IsSound now gm v = record {
  distinct = retain-IsDistinct _ gm.seen v.distinct;
  bounded = v.bounded;
}

pub is_duplicate-cleanup :
    {S : Type 0} (now later : ℕ) (id : Bytes) (gm : GossipManager S)
    → IsDistinct gm.seen
    → now ≤ later
    → is_duplicate later id (cleanup_seen_cache now gm).seen ≡ is_duplicate later id gm.seen
unfolding is_duplicate cleanup_seen_cache
is_duplicate-cleanup now later id gm d le =
    ground (arith, lookup-retain (λ ts. not (ltb (ts + hour) now)) id gm.seen d)

-- CleanupSeenCache forgets nothing that matters: whatever HandleIngress does at a later time, it does
-- the same after a cleanup as without it, to the state outside, in the error that it returns and in
-- the Lamport clock.
pub cleanup_seen_cache-handle_ingress :
    {S : Type 0} (j : JsonText) (compile : Engine S) (verified : Bool) (now later : ℕ)
    (payload : Bytes) (gm : GossipManager S) (s : S)
    → IsDistinct gm.seen
    → now ≤ later
    → let cleaned = handle_ingress j compile verified later payload (cleanup_seen_cache now gm) s in
      let kept = handle_ingress j compile verified later payload gm s in
      (cleaned.1 ≡ kept.1) × (cleaned.2 ≡ kept.2) × (cleaned.0.lamport ≡ kept.0.lamport)
unfolding checked deliver observe cleanup_seen_cache
cleanup_seen_cache-handle_ingress j compile verified now later payload gm s d le =
    let cleaned = cleanup_seen_cache now gm in
    elim (Option-cases (unmarshal_gossip_envelope j payload)) [
      | inl bad ↦ rw (handle_ingress-malformed j compile verified later payload cleaned s bad) (
          rw (handle_ingress-malformed j compile verified later payload gm s bad)
            (refl, refl, refl))
      | inr (env, parsed) ↦
          let same = is_duplicate-cleanup now later env.id gm d le in
          elim (Bool-cases (is_duplicate later env.id gm.seen)) [
            | inl again ↦
                rw
                  (handle_ingress-duplicate j compile verified later payload cleaned s env parsed
                    (same ∙ again))
                  (rw
                    (handle_ingress-duplicate j compile verified later payload gm s env parsed
                      again)
                    (refl, refl, refl))
            | inr fresh ↦
                rw
                  (handle_ingress-fresh j compile verified later payload cleaned s env parsed
                    (same ∙ fresh))
                  (rw (handle_ingress-fresh j compile verified later payload gm s env parsed fresh)
                    (refl, refl, refl))
          ]
    ]
