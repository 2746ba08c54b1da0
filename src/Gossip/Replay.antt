-- ===== src/Gossip/Replay.antt =====
-- Replay protection, over any history of calls.
use mathlib.Core.Logic.{inl, inr}
use secure_network.Prelude.{
  ℕ, ◌+◌, ◌<◌, ◌≤◌, ◌≡◌, sym, subst, Bool, true, false, not, List, [], ◌∷◌, Option, none, some,
  arith, Bytes, All, ltb, eq_iff, lookup, lookup-insert, lookup-insert_self, lookup-retain,
  Option-cases, Bool-cases,
}
use secure_network.Json.{JsonText}
use secure_network.Wire.{GossipEnvelope, unmarshal_gossip_envelope}
use secure_network.Platform.{Engine, Handler}
use secure_network.Gossip.{
  GossipManager, IngressError, engine_refused, hour, is_duplicate, observe, checked, handle_ingress,
  frame_script, frame_invocation, cleanup_seen_cache, register_handler, tick,
}
use secure_network.Gossip.Ingress.{
  handle_ingress-malformed, handle_ingress-duplicate, handle_ingress-fresh, IsSound,
  handle_ingress-IsSound, cleanup_seen_cache-IsSound,
}

-- The calls that change the manager: `publishes` is Publish, as far as the manager goes.
pub data Call (S : Type 0) : Type 0 where
  receives : Bytes → Call S
  sweeps publishes : Call S
  registers : Bytes → Handler S GossipEnvelope → Call S

module _ {S : Type 0} (j : JsonText) (compile : Engine S) (verified : Bool) where
  pub step : ℕ × Call S → GossipManager S × S → GossipManager S × S
  step (now, receives payload) (gm, s) =
      let (gm', s', e) = handle_ingress j compile verified now payload gm s in (gm', s')
  step (now, sweeps) (gm, s) = (cleanup_seen_cache now gm, s)
  step (now, publishes) (gm, s) = (tick gm, s)
  step (now, registers service h) (gm, s) = (register_handler service h gm, s)

  pub run : List (ℕ × Call S) → GossipManager S × S → GossipManager S × S
  run [] st = st
  run (c ∷ cs) st = run cs (step c st)

  step-IsSound : (c : ℕ × Call S) (st : GossipManager S × S) → IsSound st.0 → IsSound (step c st).0
  unfolding step tick register_handler
  step-IsSound (now, receives payload) (gm, s) v =
      handle_ingress-IsSound j compile verified now payload gm s v
  step-IsSound (now, sweeps) (gm, s) v = cleanup_seen_cache-IsSound now gm v
  step-IsSound (now, publishes) (gm, s) v = record { distinct = v.distinct; bounded = omega arith }
  step-IsSound (now, registers service h) (gm, s) v = record {
    distinct = v.distinct;
    bounded = v.bounded;
  }

  -- A call between the times `t` and `t + hour` leaves the entry made at `t` alone.
  module _ (id : Bytes) (t : ℕ) where
    abbrev IsHeld : GossipManager S → Type 0
    IsHeld gm = lookup id gm.seen ≡ some t

    is_duplicate-IsHeld :
        (now : ℕ) (gm : GossipManager S)
        → IsHeld gm
        → now < t + hour
        → is_duplicate now id gm.seen ≡ true
    unfolding is_duplicate
    is_duplicate-IsHeld now gm held soon = ground arith

    receive-IsHeld :
        (now : ℕ) (payload : Bytes) (gm : GossipManager S) (s : S)
        → now < t + hour
        → IsHeld gm
        → IsHeld (handle_ingress j compile verified now payload gm s).0
    unfolding observe
    receive-IsHeld now payload gm s soon held =
        elim (Option-cases (unmarshal_gossip_envelope j payload)) [
          | inl bad ↦ rw (handle_ingress-malformed j compile verified now payload gm s bad) held
          | inr (env, parsed) ↦ elim (Bool-cases (is_duplicate now env.id gm.seen)) [
            | inl again ↦
                rw (handle_ingress-duplicate j compile verified now payload gm s env parsed again)
                  held
            | inr fresh ↦
                rw (handle_ingress-fresh j compile verified now payload gm s env parsed fresh) (
                  ground (
                    arith,
                    lookup-insert env.id id now gm.seen,
                    eq_iff env.id id,
                    is_duplicate-IsHeld now gm held soon,
                  ))
          ]
        ]

    step-IsHeld :
        (c : ℕ × Call S) (st : GossipManager S × S)
        → t ≤ c.0
        → c.0 < t + hour
        → IsSound st.0
        → IsHeld st.0
        → IsHeld (step c st).0
    unfolding step tick register_handler cleanup_seen_cache
    step-IsHeld (now, receives payload) (gm, s) from soon v held =
        receive-IsHeld now payload gm s soon held
    step-IsHeld (now, sweeps) (gm, s) from soon v held =
        ground (arith, lookup-retain (λ ts. not (ltb (ts + hour) now)) id gm.seen v.distinct)
    step-IsHeld (now, publishes) (gm, s) from soon v held = held
    step-IsHeld (now, registers service h) (gm, s) from soon v held = held

    run-IsHeld :
        (cs : List (ℕ × Call S)) (st : GossipManager S × S)
        → All (λ c. (t ≤ c.0) × (c.0 < t + hour)) cs
        → IsSound st.0
        → IsHeld st.0
        → IsHeld (run cs st).0
    unfolding run
    run-IsHeld [] st h v held = held
    run-IsHeld (c ∷ cs) st ((from, soon), h) v held =
        run-IsHeld cs (step c st) h (step-IsSound c st v) (step-IsHeld c st from soon v held)

module _ {S : Type 0} (j : JsonText) (compile : Engine S) (verified : Bool) (t later : ℕ)
    (payload payload' : Bytes) (env env' : GossipEnvelope) (gm : GossipManager S) (s : S)
    (calls : List (ℕ × Call S)) (sound : IsSound gm)
    (parsed : unmarshal_gossip_envelope j payload ≡ some env)
    (parsed' : unmarshal_gossip_envelope j payload' ≡ some env') (same_id : env'.id ≡ env.id)
    (fresh : is_duplicate t env.id gm.seen ≡ false)
    (between : All (λ c. (t ≤ c.0) × (c.0 < t + hour)) calls) (soon : later < t + hour) where
  abbrev pub first : GossipManager S × S × Option IngressError
  first = handle_ingress j compile verified t payload gm s

  abbrev pub reached : GossipManager S × S
  reached = run j compile verified calls (first.0, first.1)

  first-IsHeld : IsHeld j compile verified env.id t first.0
  unfolding observe
  first-IsHeld =
      rw (handle_ingress-fresh j compile verified t payload gm s env parsed fresh)
        (lookup-insert_self env.id t gm.seen)

  -- Replay protection: once HandleIngress has taken an envelope that was no duplicate, an envelope of
  -- the same id that comes less than an hour later changes nothing, neither the manager nor the state
  -- outside, and returns nil, whatever envelopes, cleanups, publications and registrations come in
  -- between.
  pub handle_ingress-replay :
      handle_ingress j compile verified later payload' reached.0 reached.1
      ≡ (reached.0, reached.1, none)
  handle_ingress-replay =
      handle_ingress-duplicate j compile verified later payload' reached.0 reached.1 env' parsed' (
        is_duplicate-IsHeld j compile verified env'.id t later reached.0
          (subst (λ i. lookup i reached.0.seen ≡ some t) (sym same_id)
            (run-IsHeld j compile verified env.id t calls (first.0, first.1) between
              (handle_ingress-IsSound j compile verified t payload gm s sound) first-IsHeld))
          soon)

  -- A refused envelope blocks a genuine one: where the SDF engine refuses the first envelope, its
  -- handler never sees the second of the same id either, if that comes less than an hour later, and
  -- HandleIngress returns nil for it.
  pub handle_ingress-suppressed :
      verified ≡ true
      → (compile (frame_script env) (frame_invocation env) s).1 ≡ false
      → (first.2 ≡ some engine_refused)
        × (handle_ingress j compile verified later payload' reached.0 reached.1
            ≡ (reached.0, reached.1, none))
  unfolding checked
  handle_ingress-suppressed on refused = (
    rw (handle_ingress-fresh j compile verified t payload gm s env parsed fresh) (ground arith),
    handle_ingress-replay,
  )
