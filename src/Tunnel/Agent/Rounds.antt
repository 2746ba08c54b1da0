-- ===== src/Tunnel/Agent/Rounds.antt =====
-- The reconnect loop of RunMeshTunnelAgent (tunnel.go). A round is one pass of it, from the dialling to the
-- next dialling; what the network does in it is given. The goroutines that copy a stream are one act.
use secure_network.Prelude.{
  ℕ, suc, ◌+◌, ◌*◌, ◌≤◌, ◌≡◌, ◌≢◌, refl, ap, ◌∙◌, Bool, true, List, [], ◌∷◌, ◌++◌, Option, none,
  some, arith, Bytes, length, if◌then◌else◌, Bool-cases, inl, inr,
}
use secure_network.Json.{JsonText}
use secure_network.Wire.{TunnelAuthPayload}
use secure_network.Tunnel.{TunnelAgentConfig, agent_message}
use secure_network.Tunnel.Agent.{agent_request}

-- Whether the gateway was dialled and a stream opened, the time in seconds, and the streams that are
-- accepted before AcceptStream fails.
pub record Round : Type 0 where
  pub dialled : Bool
  pub opened : Bool
  pub now : ℕ
  pub streams : List ℕ

-- `sleep` is in seconds, and `proxy` starts a proxyStreamToLocal.
pub data AgentAct : Type 0 where
  dial close_connection : AgentAct
  sleep : ℕ → AgentAct
  send : Bytes → AgentAct
  proxy : ℕ → AgentAct

abbrev proxies : List ℕ → List AgentAct
proxies [] = []
proxies (stream ∷ streams) = proxy stream ∷ proxies streams

module _ (j : JsonText) {S : Type 0} (cfg : TunnelAgentConfig S) where
  -- With a stream, once the message is made or could not be signed.
  serve_round : List ℕ → S × Option TunnelAuthPayload → S × List AgentAct
  serve_round streams (s, none) = (s, dial ∷ close_connection ∷ [])
  serve_round streams (s, some msg) =
      (s, dial ∷ send (agent_request j msg) ∷ (proxies streams ++ (sleep 2 ∷ [])))

  agent_round : Round → S → S × List AgentAct
  unfolding serve_round
  agent_round r s =
      if r.dialled
      then (if r.opened
          then serve_round r.streams (agent_message r.now cfg s)
          else (s, dial ∷ close_connection ∷ sleep 2 ∷ []))
      else (s, dial ∷ sleep 5 ∷ [])

  -- RunMeshTunnelAgent, up to the end of the last round.
  pub run_agent : List Round → S → S × List AgentAct
  unfolding agent_round
  run_agent [] s = (s, [])
  run_agent (r ∷ rounds) s =
      let (s', acts) = agent_round r s in
      let (s'', later) = run_agent rounds s' in (s'', acts ++ later)

abbrev pub dials : List AgentAct → ℕ
dials [] = 0
dials (dial ∷ acts) = suc (dials acts)
dials (close_connection ∷ acts) = dials acts
dials (sleep n ∷ acts) = dials acts
dials (send b ∷ acts) = dials acts
dials (proxy n ∷ acts) = dials acts

-- The connections closed.
abbrev pub closes : List AgentAct → ℕ
closes [] = 0
closes (dial ∷ acts) = closes acts
closes (close_connection ∷ acts) = suc (closes acts)
closes (sleep n ∷ acts) = closes acts
closes (send b ∷ acts) = closes acts
closes (proxy n ∷ acts) = closes acts

-- The seconds slept.
abbrev pub slept : List AgentAct → ℕ
slept [] = 0
slept (dial ∷ acts) = slept acts
slept (close_connection ∷ acts) = slept acts
slept (sleep n ∷ acts) = n + slept acts
slept (send b ∷ acts) = slept acts
slept (proxy n ∷ acts) = slept acts

-- The texts written.
abbrev pub sent : List AgentAct → List Bytes
sent [] = []
sent (dial ∷ acts) = sent acts
sent (close_connection ∷ acts) = sent acts
sent (sleep n ∷ acts) = sent acts
sent (send b ∷ acts) = b ∷ sent acts
sent (proxy n ∷ acts) = sent acts

-- Every round gets a stream.
abbrev pub AreOpened : List Round → Type 0
AreOpened [] = Unit
AreOpened (r ∷ rounds) = (r.dialled ≡ true) × (r.opened ≡ true) × AreOpened rounds

dials-append : (a b : List AgentAct) → dials (a ++ b) ≡ dials a + dials b
dials-append [] b = omega arith
dials-append (dial ∷ a) b = omega (arith, dials-append a b)
dials-append (close_connection ∷ a) b = dials-append a b
dials-append (sleep n ∷ a) b = dials-append a b
dials-append (send x ∷ a) b = dials-append a b
dials-append (proxy n ∷ a) b = dials-append a b

slept-append : (a b : List AgentAct) → slept (a ++ b) ≡ slept a + slept b
slept-append [] b = omega arith
slept-append (dial ∷ a) b = slept-append a b
slept-append (close_connection ∷ a) b = slept-append a b
slept-append (sleep n ∷ a) b = omega (arith, slept-append a b)
slept-append (send x ∷ a) b = slept-append a b
slept-append (proxy n ∷ a) b = slept-append a b

dials-proxies : (streams : List ℕ) → dials (proxies streams ++ (sleep 2 ∷ [])) ≡ 0
dials-proxies [] = refl
dials-proxies (stream ∷ streams) = dials-proxies streams

slept-proxies : (streams : List ℕ) → slept (proxies streams ++ (sleep 2 ∷ [])) ≡ 2
slept-proxies [] = refl
slept-proxies (stream ∷ streams) = slept-proxies streams

module _ (j : JsonText) {S : Type 0} (cfg : TunnelAgentConfig S) where
  -- Its message is always made.
  abbrev pub AlwaysSigns : Type 0
  AlwaysSigns = (now : ℕ) (s : S) → (agent_message now cfg s).1 ≢ none

  abbrev pub NeverSigns : Type 0
  NeverSigns = (now : ℕ) (s : S) → (agent_message now cfg s).1 ≡ none

  serve_round-acts :
      (streams : List ℕ) (m : S × Option TunnelAuthPayload)
      → let acts = (serve_round j cfg streams m).1 in
        (dials acts ≡ 1)
        × (m.1 ≢ none → slept acts ≡ 2)
        × (m.1 ≡ none → acts ≡ dial ∷ close_connection ∷ [])
  unfolding serve_round
  serve_round-acts streams (s, none) = (refl, λ made. absurd (made refl), λ failed. refl)
  serve_round-acts streams (s, some msg) = (
    ap suc (dials-proxies streams),
    λ made. slept-proxies streams,
    λ failed. absurd (ground arith),
  )

  agent_round-acts :
      (r : Round) (s : S)
      → let acts = (agent_round j cfg r s).1 in
        (dials acts ≡ 1)
        × (AlwaysSigns → 2 ≤ slept acts)
        × (NeverSigns → r.dialled ≡ true → r.opened ≡ true → acts ≡ dial ∷ close_connection ∷ [])
  unfolding agent_round
  agent_round-acts r s =
      let (one, paces, fails) = serve_round-acts r.streams (agent_message r.now cfg s) in
      elim (Bool-cases r.dialled) [
        | inl on ↦ elim (Bool-cases r.opened) [
          | inl has ↦ rw on (
              rw has (
                one,
                λ signs. omega (arith, paces (signs r.now s)),
                λ never d o. fails (never r.now s),
              ))
          | inr hasnt ↦
              rw on (rw hasnt (refl, λ signs. omega arith, λ never d o. absurd (ground arith)))
        ]
        | inr off ↦ rw off (refl, λ signs. omega arith, λ never d o. absurd (ground arith))
      ]

  -- The agent never gives up: each round dials the gateway once. If its message can always be made, it
  -- sleeps at least two seconds for each round. If its signer fails every time and every round gets a
  -- stream, it closes one connection for each round, sends nothing and sleeps not at all, so that it dials
  -- again and again without a pause.
  pub run_agent-acts :
      (rounds : List Round) (s : S)
      → let acts = (run_agent j cfg rounds s).1 in
        (dials acts ≡ length rounds)
        × (AlwaysSigns → 2 * length rounds ≤ slept acts)
        × (NeverSigns
            → AreOpened rounds
            → (closes acts ≡ length rounds) × (slept acts ≡ 0) × (sent acts ≡ []))
  unfolding run_agent
  run_agent-acts [] s = (refl, λ signs. omega arith, λ never opened. (refl, refl, refl))
  run_agent-acts (r ∷ rounds) s =
      let (s', acts) = agent_round j cfg r s in
      let later = (run_agent j cfg rounds s').1 in
      let (one, paces, fails) = agent_round-acts r s in
      let (all, later_paces, later_fails) = run_agent-acts rounds s' in
      (
        omega (arith, dials-append acts later),
        λ signs. omega (arith, slept-append acts later, paces signs, later_paces signs),
        λ never (d, o, opened).
            let none_sent = later_fails never opened in
            let first = fails never d o in
            (
              ap (λ a. closes (a ++ later)) first ∙ ap suc none_sent.0,
              ap (λ a. slept (a ++ later)) first ∙ none_sent.1,
              ap (λ a. sent (a ++ later)) first ∙ none_sent.2,
            ),
      )
