-- ===== src/Gossip/Service.antt =====
-- A gossip service that remembers every envelope it took and sweeps nothing.
use secure_network.Prelude.{
  ℕ, ◌+◌, ◌-◌, ◌%◌, ◌^◌, Bool, true, false, List, [], ◌∷◌, Option, none, some, Bytes, ltb, ◌==◌,
  if◌then◌else◌, Map, lookup, insert,
}
use secure_network.Json.{JsonText}
use secure_network.Wire.{GossipEnvelope, unmarshal_gossip_envelope}
use secure_network.Platform.{Engine, Handler}
use secure_network.Gossip.{
  IngressError, malformed, engine_refused, handler_failed, hour, frame_script, frame_invocation,
}
use secure_network.Gossip.Replay.{Call, receives, sweeps, publishes, registers}

-- When an envelope of an id was taken last.
pub record Memory (S : Type 0) : Type 0 where
  pub services : Map (Handler S GossipEnvelope)
  pub taken : Bytes → Option ℕ
  pub clock : ℕ

abbrev pub took_within_hour : ℕ → Option ℕ → Bool
took_within_hour now none = false
took_within_hour now (some t) = ltb (now - t) hour

module _ {S : Type 0} where
  abbrev answer : S × Option Bytes → S × Option IngressError
  answer (s, none) = (s, none)
  answer (s, some e) = (s, some (handler_failed e))

  abbrev pub serve_envelope :
      Option (Handler S GossipEnvelope) → GossipEnvelope → S → S × Option IngressError
  serve_envelope none env s = (s, none)
  serve_envelope (some h) env s = answer (h env s)

  abbrev pub after_check :
      Option (Handler S GossipEnvelope) → GossipEnvelope → S × Bool → S × Option IngressError
  after_check h env (s, true) = serve_envelope h env s
  after_check h env (s, false) = (s, some engine_refused)

  abbrev pub remember : ℕ → GossipEnvelope → Memory S → Memory S
  remember now env m = record m {
    taken = λ id. if env.id == id then some now else m.taken id;
    clock = ((if ltb m.clock env.lamport then env.lamport else m.clock) + 1) % 2 ^ 64;
  }

module _ {S : Type 0} (j : JsonText) (compile : Engine S) (verified : Bool) where
  abbrev take_envelope : ℕ → GossipEnvelope → Memory S → S → Memory S × S × Option IngressError
  take_envelope now env m s =
      let h = lookup env.service_id m.services in
      let result =
        if verified
        then after_check h env (compile (frame_script env) (frame_invocation env) s)
        else serve_envelope h env s in
      if took_within_hour now (m.taken env.id)
      then (m, s, none)
      else (remember now env m, result.0, result.1)

  abbrev take_document :
      ℕ → Option GossipEnvelope → Memory S → S → Memory S × S × Option IngressError
  take_document now none m s = (m, s, some malformed)
  take_document now (some env) m s = take_envelope now env m s

  -- A call of the abstract service.
  unfoldable pub ask : ℕ × Call S → Memory S → S → Memory S × S × Option IngressError
  ask (now, receives payload) m s = take_document now (unmarshal_gossip_envelope j payload) m s
  ask (now, sweeps) m s = (m, s, none)
  ask (now, publishes) m s = (record m { clock = (m.clock + 1) % 2 ^ 64 }, s, none)
  ask (now, registers service h) m s =
      (record m { services = insert service h m.services }, s, none)

  -- What a history of requests does to the state outside, what it returns, and the clock after each.
  unfoldable pub expected : List (ℕ × Call S) → Memory S → S → List (S × Option IngressError × ℕ)
  expected [] m s = []
  expected (c ∷ cs) m s = let (m', s', e) = ask c m s in (s', e, m'.clock) ∷ expected cs m' s'
