-- ===== src/Gossip/Refinement.antt =====
-- The manager of gossip.go, with its calls of CleanupSeenCache, implements the service of Gossip/Service.
use mathlib.Core.Logic.{inl, inr}
use secure_network.Prelude.{
  ℕ, ◌+◌, ◌%◌, ◌^◌, ◌≤◌, ◌≡◌, refl, ap, sym, ◌∙◌, Bool, List, [], ◌∷◌, Option, none, arith, Bytes,
  ltb, if◌then◌else◌, lookup, insert, lookup-insert, IsDistinct, insert-IsDistinct,
  retain-IsDistinct, Option-cases, Bool-cases,
}
use secure_network.Json.{JsonText}
use secure_network.Wire.{GossipEnvelope, unmarshal_gossip_envelope}
use secure_network.Platform.{Engine}
use secure_network.Gossip.{
  GossipManager, IngressError, is_duplicate, observe, deliver, checked, handle_ingress,
  frame_script, frame_invocation, cleanup_seen_cache, register_handler, tick,
}
use secure_network.Gossip.Ingress.{
  handle_ingress-malformed, handle_ingress-duplicate, handle_ingress-fresh, is_duplicate-cleanup,
}
use secure_network.Gossip.Replay.{Call, receives, sweeps, publishes, registers}
use secure_network.Gossip.Service.{
  Memory, took_within_hour, serve_envelope, after_check, remember, ask, expected,
}

module _ {S : Type 0} (j : JsonText) (compile : Engine S) (verified : Bool) where
  -- The same call of the manager.
  pub call : ℕ × Call S → GossipManager S → S → GossipManager S × S × Option IngressError
  call (now, receives payload) gm s = handle_ingress j compile verified now payload gm s
  call (now, sweeps) gm s = (cleanup_seen_cache now gm, s, none)
  call (now, publishes) gm s = (tick gm, s, none)
  call (now, registers service h) gm s = (register_handler service h gm, s, none)

  -- What a history of calls does to the state outside, what it returns, and the clock after each.
  pub outcomes : List (ℕ × Call S) → GossipManager S → S → List (S × Option IngressError × ℕ)
  outcomes [] gm s = []
  outcomes (c ∷ cs) gm s =
      let (gm', s', e) = call c gm s in (s', e, gm'.lamport) ∷ outcomes cs gm' s'

  -- The manager implements the service from the time `now` on.
  pub record Implements (now : ℕ) (gm : GossipManager S) (m : Memory S) : Type 0 where
    pub same_services : gm.handlers ≡ m.services
    pub same_clock : gm.lamport ≡ m.clock
    pub distinct : IsDistinct gm.seen
    pub recalls :
        (later : ℕ) (id : Bytes)
        → now ≤ later
        → is_duplicate later id gm.seen ≡ took_within_hour later (m.taken id)

  is_duplicate-insert :
      (now later : ℕ) (env : GossipEnvelope) (gm : GossipManager S) (m : Memory S) (id : Bytes)
      → is_duplicate later id gm.seen ≡ took_within_hour later (m.taken id)
      → is_duplicate later id (observe now env gm).seen
        ≡ took_within_hour later ((remember now env m).taken id)
  unfolding is_duplicate observe
  is_duplicate-insert now later env gm m id same =
      ground (arith, lookup-insert env.id id now gm.seen)

  observe-Implements :
      (now : ℕ) (env : GossipEnvelope) (gm : GossipManager S) (m : Memory S)
      → Implements now gm m
      → Implements now (observe now env gm) (remember now env m)
  unfolding observe
  observe-Implements now env gm m r = record {
    same_services = r.same_services;
    same_clock =
        ap (λ l. ((if ltb l env.lamport then env.lamport else l) + 1) % 2 ^ 64) r.same_clock;
    distinct = insert-IsDistinct env.id now gm.seen r.distinct;
    recalls = λ later id le. is_duplicate-insert now later env gm m id (r.recalls later id le);
  }

  checked-same :
      (env : GossipEnvelope) (gm : GossipManager S) (m : Memory S) (s : S) (now : ℕ)
      → gm.handlers ≡ m.services
      → checked compile verified (observe now env gm) env s ≡ (
          if verified
          then after_check
              (lookup env.service_id m.services)
              env
              (compile (frame_script env) (frame_invocation env) s)
          else serve_envelope (lookup env.service_id m.services) env s)
  unfolding checked deliver observe
  checked-same env gm m s now same = ground arith

  later-Implements :
      (now later : ℕ) (gm : GossipManager S) (m : Memory S)
      → now ≤ later
      → Implements now gm m
      → Implements later gm m
  later-Implements now later gm m le r = record {
    same_services = r.same_services;
    same_clock = r.same_clock;
    distinct = r.distinct;
    recalls = λ t id after. r.recalls t id (omega arith);
  }

  -- One call, on both sides.
  abbrev Simulates :
      ℕ
      → (GossipManager S × S × Option IngressError)
      → (Memory S × S × Option IngressError)
      → Type 0
  Simulates now (gm, s, e) (m, s', e') = Implements now gm m × (s ≡ s') × (e ≡ e')

  handle_ingress-Simulates :
      (now : ℕ) (payload : Bytes) (gm : GossipManager S) (m : Memory S) (s : S)
      → Implements now gm m
      → Simulates now
          (handle_ingress j compile verified now payload gm s)
          (ask j compile verified (now, receives payload) m s)
  unfolding ask
  handle_ingress-Simulates now payload gm m s r =
      elim (Option-cases (unmarshal_gossip_envelope j payload)) [
        | inl bad ↦
            rw (handle_ingress-malformed j compile verified now payload gm s bad)
              (rw bad (r, refl, refl))
        | inr (env, parsed) ↦
            let same = r.recalls now env.id (omega arith) in
            elim (Bool-cases (is_duplicate now env.id gm.seen)) [
              | inl again ↦
                  rw (handle_ingress-duplicate j compile verified now payload gm s env parsed again)
                    (rw parsed (rw (sym same ∙ again) (r, refl, refl)))
              | inr fresh ↦
                  let result = checked-same env gm m s now r.same_services in
                  rw (handle_ingress-fresh j compile verified now payload gm s env parsed fresh) (
                    rw parsed (
                      rw (sym same ∙ fresh) (
                        observe-Implements now env gm m r,
                        ap (λ x. x.0) result,
                        ap (λ x. x.1) result,
                      )))
            ]
      ]

  call-Simulates :
      (c : ℕ × Call S) (gm : GossipManager S) (m : Memory S) (s : S)
      → Implements c.0 gm m
      → Simulates c.0 (call c gm s) (ask j compile verified c m s)
  unfolding call ask tick register_handler cleanup_seen_cache
  call-Simulates (now, receives payload) gm m s r = handle_ingress-Simulates now payload gm m s r
  call-Simulates (now, sweeps) gm m s r = (
    record {
      same_services = r.same_services;
      same_clock = r.same_clock;
      distinct = retain-IsDistinct _ gm.seen r.distinct;
      recalls =
          λ later id le. is_duplicate-cleanup now later id gm r.distinct le ∙ r.recalls later id le;
    },
    refl,
    refl,
  )
  call-Simulates (now, publishes) gm m s r = (
    record {
      same_services = r.same_services;
      same_clock = ap (λ l. (l + 1) % 2 ^ 64) r.same_clock;
      distinct = r.distinct;
      recalls = r.recalls;
    },
    refl,
    refl,
  )
  call-Simulates (now, registers service h) gm m s r = (
    record {
      same_services = ap (insert service h) r.same_services;
      same_clock = r.same_clock;
      distinct = r.distinct;
      recalls = r.recalls;
    },
    refl,
    refl,
  )

  abbrev pub IsInOrder : ℕ → List (ℕ × Call S) → Type 0
  IsInOrder now [] = Unit
  IsInOrder now (c ∷ cs) = (now ≤ c.0) × IsInOrder c.0 cs

  -- The gossip manager refines a service that never forgets an envelope: from a manager that implements
  -- such a memory, any history of received envelopes, cleanups, publications and registrations whose
  -- times do not go back leaves the same state outside, returns the same error and shows the same Lamport
  -- clock after every call as the service, which refuses an id that it took within the last hour and for
  -- which a cleanup does nothing.
  pub outcomes-expected :
      (now : ℕ) (calls : List (ℕ × Call S)) (gm : GossipManager S) (m : Memory S) (s : S)
      → Implements now gm m
      → IsInOrder now calls
      → outcomes calls gm s ≡ expected j compile verified calls m s
  unfolding outcomes expected
  outcomes-expected now [] gm m s r order = refl
  outcomes-expected now (c ∷ cs) gm m s r (le, order) =
      let (r', state, error) = call-Simulates c gm m s (later-Implements now c.0 gm m le r) in
      let rest =
        outcomes-expected c.0 cs (call c gm s).0 (ask j compile verified c m s).0 (call c gm s).1 r'
          order in
      let clock = r'.same_clock in cc

  -- A manager with distinct ids implements what it has seen.
  abbrev pub memory_of : GossipManager S → Memory S
  memory_of gm = record {
    services = gm.handlers;
    taken = λ id. lookup id gm.seen;
    clock = gm.lamport;
  }

  pub memory_of-Implements :
      (now : ℕ) (gm : GossipManager S) → IsDistinct gm.seen → Implements now gm (memory_of gm)
  unfolding is_duplicate
  memory_of-Implements now gm d = record {
    same_services = refl;
    same_clock = refl;
    distinct = d;
    recalls = λ later id le. ground arith;
  }
