-- ===== src/Gateway/Session/Tests.antt =====
-- The theorem on an agent's request at a concrete gateway.
use secure_network.Prelude.{◌≡◌, ◌++◌, [], none, some, true, Bytes, text, err, ℕ}
use secure_network.Framing.{too_large, read_frame, max_frame_size}
use secure_network.Json.Sample.{sample, sample-IsJsonText}
use secure_network.Wire.{TunnelAuthPayload}
use secure_network.Platform.{Transport, Engine}
use secure_network.Tunnel.Agent.{agent_request}
use secure_network.Gateway.{Router, Responder, Gateway}
use secure_network.Gateway.Session.{open_session}
use secure_network.Gateway.Session.Agents.{open_session-agent_request}

abbrev net : Transport
net = record {
  Stream = Bytes;
  Fault = Unit {0};
  write = λ w p. (w ++ p, none);
  Cipher = Unit {0};
  encrypt = λ c p. (some p, c);
  decrypt = λ c p. (some p, c);
}

-- The policy and the engine allow everything.
abbrev router : Router ℕ
router = record {
  has_permission = λ key permission. true;
  evaluate = λ signer action resource target. true;
  put = λ key value s. s;
  protocol_handlers = [];
}

abbrev agree : Engine ℕ
agree script tx s = (s, true)

abbrev responder : Responder net
responder = record {
  State = Unit {0};
  read_message = λ m. some (tt, m);
  write_message = λ h. some (text "hi", tt, tt);
}

abbrev gateway : Gateway net
gateway = record {
  active_sessions = [];
  host_sessions = [];
  links = λ n. record { stream = []; cs_send = tt };
  bus = [];
}

abbrev auth : TunnelAuthPayload
auth = record {
  subdomain = text "app";
  identity_type = text "user";
  identifier = text "ann";
  nonce = text "9";
  credential = text "t";
}

open_session-agent_request_example :
    ((read_frame (agent_request sample auth ++ text "x") max_frame_size).0 ≡ err too_large)
    × (open_session responder router agree 9 3 [] (agent_request sample auth ++ text "x") gateway 0
        ≡ (gateway, none, 0))
open_session-agent_request_example =
    open_session-agent_request responder router agree sample sample-IsJsonText auth (text "x") 9 3
      [] gateway 0
