-- ===== src/Rpc/Calls.antt =====
-- Call, over any history of calls and packets: an answer belongs to its request.
use mathlib.Core.Logic.{inl, inr}
use secure_network.Prelude.{
  ℕ, ◌≡◌, ◌⊎◌, refl, ◌∙◌, true, List, [], ◌∷◌, Option, none, some, Bytes, lookup, insert, Map,
  AllEntries, AllEntries-insert, AllEntries-delete, AllEntries-lookup, if◌then◌else◌, Option-cases,
  Bool-cases, Result, ok, err,
}
use secure_network.Strings.{is_empty}
use secure_network.PeerRoute.{RouteError}
use secure_network.Strings.Hex.{encode_hex}
use secure_network.Json.{JsonText}
use secure_network.Wire.{RpcPacket, unmarshal_rpc_packet}
use secure_network.Platform.{Transport, Engine}
use secure_network.Mesh.{MeshNode}
use secure_network.Rpc.{
  RpcManager, RpcHandler, CallError, Wake, response, done, timeout, deposit, fill, handle_ingress,
  begin_call, end_call, register, answer_of, waiter_answer, new_rpc_manager, remote, begun, woken,
  cancelled, timed_out,
}
use secure_network.Rpc.Ingress.{
  handle_ingress-malformed, handle_ingress-deposit, handle_ingress-serve,
}

-- The calls on the manager, each with its time.
pub data Event (S : Type 0) : Type 0 where
  receives : Bytes → Event S
  begins : Bytes → Bytes → Bytes → Bytes → Event S
  ends : Wake → Bytes → Event S
  registers : Bytes → RpcHandler S → Event S

module _ (net : Transport) (j : JsonText) (sha256 : Bytes → Bytes) {S : Type 0}
    (compile : Engine S) where
  abbrev pub World : Type 0
  World = RpcManager S × Option (MeshNode net) × S

  unfoldable pub step : ℕ × Event S → World → World
  step (now, receives payload) (m, mesh, s) =
      handle_ingress net j sha256 compile now payload m mesh s
  step (now, begins bytes target method payload) (m, mesh, s) =
      let (m', mesh', e) = begin_call net j sha256 now bytes target method payload m mesh in
      (m', mesh', s)
  step (now, ends wake bytes) (m, mesh, s) = ((end_call wake bytes m).0, mesh, s)
  step (now, registers method h) (m, mesh, s) = (register method h m, mesh, s)

  -- A history, its latest event first.
  unfoldable pub run : World → List (ℕ × Event S) → World
  run w [] = w
  run w (e ∷ es) = step e (run w es)

  -- The packet came in.
  abbrev pub Brings : ℕ × Event S → RpcPacket → Type 0
  Brings (now, receives payload) p = unmarshal_rpc_packet j payload ≡ some p
  Brings e p = ⊥

  abbrev pub Came : List (ℕ × Event S) → RpcPacket → Type 0
  Came [] p = ⊥
  Came (e ∷ es) p = Brings e p ⊎ Came es p

  -- What the channel of a pending call may hold.
  abbrev IsAnswerTo : List (ℕ × Event S) → Bytes → Option RpcPacket → Type 0
  IsAnswerTo es id none = Unit
  IsAnswerTo es id (some p) = (p.id ≡ id) × (p.response ≡ true) × Came es p

  IsAnswerTo-later :
      (e : ℕ × Event S) (es : List (ℕ × Event S)) (m : Map (Option RpcPacket))
      → AllEntries (IsAnswerTo es) m
      → AllEntries (IsAnswerTo (e ∷ es)) m
  IsAnswerTo-later e es [] h = tt
  IsAnswerTo-later e es ((id, none) ∷ m) h = (tt, IsAnswerTo-later e es m h.1)
  IsAnswerTo-later e es ((id, some p) ∷ m) h =
      ((h.0.0, h.0.1, inr h.0.2), IsAnswerTo-later e es m h.1)

  abbrev AreAnswers : List (ℕ × Event S) → RpcManager S → Type 0
  AreAnswers es m = AllEntries (IsAnswerTo es) m.pending

  deposit-AreAnswers :
      (es : List (ℕ × Event S)) (p : RpcPacket) (m : RpcManager S)
      → p.response ≡ true
      → Came es p
      → AreAnswers es m
      → AreAnswers es (deposit p m)
  unfolding deposit
  deposit-AreAnswers es p m r came h =
      elim (lookup p.id m.pending) as (λ o. AreAnswers es (fill p m o)) [
        | none ↦ h
        | some none ↦ AllEntries-insert (IsAnswerTo es) p.id (some p) m.pending (refl, r, came) h
        | some (some q) ↦ h
      ]

  receive-AreAnswers :
      (now : ℕ) (payload : Bytes) (es : List (ℕ × Event S)) (w : World)
      → AreAnswers es w.0
      → AreAnswers ((now, receives payload) ∷ es) (step (now, receives payload) w).0
  unfolding step
  receive-AreAnswers now payload es (m, mesh, s) h =
      let later = IsAnswerTo-later (now, receives payload) es m.pending h in
      elim (Option-cases (unmarshal_rpc_packet j payload)) [
        | inl bad ↦
            rw (handle_ingress-malformed net j sha256 compile now payload m mesh s bad) later
        | inr (p, parsed) ↦ elim (Bool-cases p.response) [
          | inl answers ↦
              rw (handle_ingress-deposit net j sha256 compile now payload m mesh s p parsed answers)
                (deposit-AreAnswers ((now, receives payload) ∷ es) p m answers (inl parsed) later)
          | inr asks ↦
              rw (handle_ingress-serve net j sha256 compile now payload m mesh s p parsed asks)
                later
        ]
      ]

  begun-AreAnswers :
      (es : List (ℕ × Event S)) (id : Bytes) (m : RpcManager S) (e : Option RouteError)
      → AreAnswers es m
      → AreAnswers es (begun id m e).0
  unfolding begun
  begun-AreAnswers es id m none h = AllEntries-insert (IsAnswerTo es) id none m.pending tt h
  begun-AreAnswers es id m (some e) h =
      AllEntries-delete (IsAnswerTo es) id (insert id none m.pending)
        (AllEntries-insert (IsAnswerTo es) id none m.pending tt h)

  woken-AreAnswers :
      (es : List (ℕ × Event S)) (id : Bytes) (m : RpcManager S)
      (r : Option (Result CallError Bytes))
      → AreAnswers es m
      → AreAnswers es (woken id m r).0
  unfolding woken
  woken-AreAnswers es id m none h = h
  woken-AreAnswers es id m (some r) h = AllEntries-delete (IsAnswerTo es) id m.pending h

  step-AreAnswers :
      (e : ℕ × Event S) (es : List (ℕ × Event S)) (w : World)
      → AreAnswers es w.0
      → AreAnswers (e ∷ es) (step e w).0
  unfolding step begin_call end_call register
  step-AreAnswers (now, receives payload) es w h = receive-AreAnswers now payload es w h
  step-AreAnswers (now, begins bytes target method payload) es (m, mesh, s) h =
      begun-AreAnswers ((now, begins bytes target method payload) ∷ es) (encode_hex bytes) m _
        (IsAnswerTo-later (now, begins bytes target method payload) es m.pending h)
  step-AreAnswers (now, ends response bytes) es (m, mesh, s) h =
      woken-AreAnswers ((now, ends response bytes) ∷ es) (encode_hex bytes) m _
        (IsAnswerTo-later (now, ends response bytes) es m.pending h)
  step-AreAnswers (now, ends done bytes) es (m, mesh, s) h =
      woken-AreAnswers ((now, ends done bytes) ∷ es) (encode_hex bytes) m (some (err cancelled))
        (IsAnswerTo-later (now, ends done bytes) es m.pending h)
  step-AreAnswers (now, ends timeout bytes) es (m, mesh, s) h =
      woken-AreAnswers ((now, ends timeout bytes) ∷ es) (encode_hex bytes) m (some (err timed_out))
        (IsAnswerTo-later (now, ends timeout bytes) es m.pending h)
  step-AreAnswers (now, registers method f) es (m, mesh, s) h =
      IsAnswerTo-later (now, registers method f) es m.pending h

  run-AreAnswers :
      (mesh : Option (MeshNode net)) (s : S) (es : List (ℕ × Event S))
      → AreAnswers es (run (new_rpc_manager, mesh, s) es).0
  unfolding run new_rpc_manager
  run-AreAnswers mesh s [] = tt
  run-AreAnswers mesh s (e ∷ es) =
      step-AreAnswers e es (run (new_rpc_manager, mesh, s) es) (run-AreAnswers mesh s es)

  waiter_answer-IsAnswerTo :
      (es : List (ℕ × Event S)) (id : Bytes) (m : RpcManager S) (r : Result CallError Bytes)
      (o : Option (Option RpcPacket))
      → lookup id m.pending ≡ o
      → waiter_answer o ≡ some r
      → AreAnswers es m
      → (p : RpcPacket) × (p.id ≡ id) × (p.response ≡ true) × Came es p × (r ≡ answer_of p)
  waiter_answer-IsAnswerTo es id m r none found e h = cc
  waiter_answer-IsAnswerTo es id m r (some none) found e h = cc
  waiter_answer-IsAnswerTo es id m r (some (some p)) found e h =
      let (same, answers, came) = AllEntries-lookup (IsAnswerTo es) id m.pending found h in
      (p, same, answers, came, cc)

  -- Whatever calls, packets and registrations came before, from a new manager: where Call wakes up
  -- with a response, that is the answer of a packet that came in, is marked as a response and has the
  -- id of this call; its error's text becomes the error of Call, and otherwise its payload the result.
  pub end_call-answer :
      (mesh : Option (MeshNode net)) (s : S) (es : List (ℕ × Event S)) (bytes : Bytes)
      (r : Result CallError Bytes)
      → (end_call response bytes (run (new_rpc_manager, mesh, s) es).0).1 ≡ some r
      → (p : RpcPacket) × (p.id ≡ encode_hex bytes)
        × (p.response ≡ true)
        × Came es p
        × (r ≡ (if is_empty p.error then ok p.payload else err (remote p.error)))
  unfolding end_call woken
  end_call-answer mesh s es bytes r e =
      let m = (run (new_rpc_manager, mesh, s) es).0 in
      waiter_answer-IsAnswerTo es (encode_hex bytes) m r (lookup (encode_hex bytes) m.pending) refl
        (woken_result (encode_hex bytes) m (waiter_answer (lookup (encode_hex bytes) m.pending))
          ∙ e)
        (run-AreAnswers mesh s es)
    where
      woken_result :
          (id : Bytes) (m : RpcManager S) (o : Option (Result CallError Bytes))
          → o ≡ (woken id m o).1
      woken_result id m none = refl
      woken_result id m (some r) = refl
