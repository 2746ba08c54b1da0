-- ===== src/Gateway/Session/Run/Tests.antt =====
-- A node and a gateway's session at the two ends of one stream.
use secure_network.Prelude.{
  ℕ, suc, length, ◌≤◌, ◌+◌, ◌≡◌, refl, true, false, [], ◌++◌, none, some, Bytes, text, ◌==◌, eq_iff,
  arith,
}
use secure_network.Json.{IsPlain}
use secure_network.Json.Sample.{sample-IsJsonText, sample, sample_print}
use secure_network.Wire.{
  ApiPayload, api_payload_members, marshal_api_payload, unmarshal_api_payload,
}
use secure_network.Framing.{max_frame_size}
use secure_network.Framing.Laws.{frame}
use secure_network.Mesh.{MeshNode, send_action}
use secure_network.Mesh.Sample.{tag, sealed_wire, sealed_wire-IsWriter, sealed_wire-IsChannel}
use secure_network.Tunnel.{Services}
use secure_network.Gateway.{Gateway, Router, route_to_api}
use secure_network.Gateway.Session.{Session, TunnelModule}
use secure_network.Gateway.Session.Run.{session_loop}
use secure_network.Gateway.Session.Run.Delivery.{goes_on_with, session_loop-send_action}

abbrev ssh : ApiPayload
ssh = record { action = text "ssh"; content = text "x"; target = []; value = 0 }

abbrev sender : MeshNode sealed_wire
sender = record { noise_pub = text "k"; stream = some []; cs_send = some 3; cs_recv = none }

abbrev sent : Bytes
sent = tag ++ marshal_api_payload sample ssh

abbrev after_sending : MeshNode sealed_wire
after_sending = record sender { stream = some (frame sent); cs_send = some 4 }

sends : send_action sealed_wire sample sender ssh ≡ (after_sending, none)
unfolding send_action secure_network.Framing.write_frame frame marshal_api_payload sample_print
sends = refl

ssh-IsPlain : IsPlain (api_payload_members sample ssh)
ssh-IsPlain = ground arith

ssh_fits : length (marshal_api_payload sample ssh) + 16 ≤ max_frame_size
unfolding marshal_api_payload sample_print
ssh_fits = omega arith

abbrev router : Router ℕ
router = record {
  has_permission = λ key permission. true;
  evaluate = λ signer action resource target. true;
  put = λ key value s. s + 1;
  protocol_handlers = [];
}

abbrev services : Services ℕ
services = record {
  validate_cookie_token = λ token. none;
  evaluate = λ subject action object. false;
  put = λ key value ttl s. (s, true);
}

abbrev session : Session sealed_wire
session = record { link = 1; remote_key = text "k"; cs_recv = 3 }

abbrev keeps_clock : ℕ → ℕ
keeps_clock k = 9

session_loop-send_action_example :
    (w' : Bytes) × (f : Bytes) × (d : Bytes) × (a' : ℕ) × (b' : ℕ) × (after_sending.stream
      ≡ some w')
    × (after_sending.cs_send ≡ some a')
    × (w' ≡ [] ++ f)
    × (unmarshal_api_payload sample d ≡ some ssh)
    × (a' ≡ b')
    × ((fuel k : ℕ) (rest : Bytes) (t : TunnelModule) (g : Gateway sealed_wire) (s : ℕ)
        → session_loop sample router services 7 keeps_clock (suc fuel) k session (f ++ rest) t g s
          ≡ goes_on_with sample router services 7 keeps_clock fuel
              (suc k)
              (record session { cs_recv = b' })
              rest
              t
              (route_to_api sample router 9 1 (text "k") d g s))
unfolding ◌==◌
session_loop-send_action_example =
    session_loop-send_action (λ w. w) (λ a b. a ≡ b) sealed_wire-IsWriter sealed_wire-IsChannel
      sample sample-IsJsonText router services 7 keeps_clock [] 3 session ssh sender after_sending
      ssh-IsPlain (omega arith) ssh_fits
      (λ e. ground (arith, eq_iff (text "ssh") (text "tunnel_bind"))) refl refl refl sends
