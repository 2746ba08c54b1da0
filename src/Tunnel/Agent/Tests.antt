-- ===== src/Tunnel/Agent/Tests.antt =====
-- The rounds of an agent whose signer is broken.
use secure_network.Prelude.{ℕ, ◌+◌, ◌≤◌, ◌≡◌, refl, true, [], ◌∷◌, List, none, some, text, ◌==◌}
use secure_network.Json.Sample.{sample}
use secure_network.Tunnel.{TunnelAgentConfig, agent_message}
use secure_network.Tunnel.Agent.Rounds.{
  Round, run_agent, dials, closes, slept, sent, AlwaysSigns, NeverSigns, AreOpened, run_agent-acts,
}

abbrev broken : TunnelAgentConfig ℕ
broken = record {
  subdomain = text "a";
  identity_type = text "machine";
  identifier = text "m";
  session_token = [];
  signer = some (λ payload s. (s + 1, none));
}

abbrev two : List Round
two =
    record { dialled = true; opened = true; now = 7; streams = [] }
    ∷ record { dialled = true; opened = true; now = 7; streams = [] }
    ∷ []

run_agent-acts_example :
    let acts = (run_agent sample broken two 0).1 in
    (dials acts ≡ 2)
    × (AlwaysSigns sample broken → 4 ≤ slept acts)
    × (NeverSigns sample broken
        → AreOpened two
        → (closes acts ≡ 2) × (slept acts ≡ 0) × (sent acts ≡ []))
run_agent-acts_example = run_agent-acts sample broken two 0

broken-NeverSigns : NeverSigns sample broken
unfolding agent_message ◌==◌ secure_network.Tunnel.agent_credential
broken-NeverSigns now s = refl

no_pause : slept (run_agent sample broken two 0).1 ≡ 0
no_pause =
    let (all, paces, fails) = run_agent-acts sample broken two 0 in
    (fails broken-NeverSigns (refl, refl, (refl, refl, tt))).1
