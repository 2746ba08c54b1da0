-- ===== src/Gateway/Tests.antt =====
-- The gateway's theorems at concrete sessions.
use secure_network.Framing.{write_frame}
use secure_network.Prelude.{
  not, is_some, ℕ, ◌+◌, ◌<◌, ◌≡◌, ◌≢◌, ◌↔◌, refl, Bool, true, false, [], ◌∷◌, ◌++◌, Option, none,
  some, arith, Bytes, text, ◌==◌, lookup, ok, err, suc, length,
}
use secure_network.Framing.Laws.{frame}
use secure_network.Strings.{to_lower, has_prefix}
use secure_network.Json.{Json, null}
use secure_network.Json.Sample.{sample, sample_print, sample_parse}
use secure_network.Wire.{ApiPayload, unmarshal_api_payload, marshal_api_payload, unmarshal_host_id}
use secure_network.Platform.{Transport, Engine}
use secure_network.Tunnel.{Services, Tunnels}
use secure_network.Gateway.{
  Router, Responder, Gateway, nil_map, unix, forward_to_host, perform, route_to_api,
}
use secure_network.Gateway.Routing.{route_to_api_cases, route_to_api-takes_host, perform_panics_iff}
use secure_network.Gateway.Session.{no_module, Session, closes, open_session, monitor_heartbeat}
use secure_network.Gateway.Session.Run.{handle_secure_stream}
use secure_network.Gateway.Session.Run.Termination.{IsEnd, handle_secure_stream-IsEnd}
use secure_network.Gateway.Session.Lifetime.{
  Starts, monitor_heartbeat-route_to_api, open_session-Starts,
}

abbrev open_net : Transport
open_net = record {
  Stream = Bytes;
  Fault = Unit {0};
  write = λ w p. (w ++ p, none);
  Cipher = ℕ;
  encrypt = λ c p. (some p, c + 1);
  decrypt = λ c p. (some p, c + 1);
}

-- The policy engine lets "k1" do everything, and the store counts.
abbrev router : Router ℕ
router = record {
  has_permission = λ key permission. key == text "k1";
  evaluate = λ signer action resource target. signer == text "k1";
  put = λ key value s. s + 1;
  protocol_handlers = [];
}

abbrev agree : Engine ℕ
agree script tx s = (s, true)

abbrev responder : Responder open_net
responder = record {
  State = Unit {0};
  read_message = λ m. some (tt, m);
  write_message = λ h. some (text "hi", 0, 0);
}

-- The session of "k1" has the link 1 and registered the host "h".
abbrev gateway : Gateway open_net
gateway = record {
  active_sessions = (text "k1", 5) ∷ [];
  host_sessions = (text "h", record { link = 1; signer = text "k1" }) ∷ [];
  links = λ n. record { stream = []; cs_send = 0 };
  bus = [];
}

abbrev to_host : ApiPayload
to_host = record { action = text "post"; content = text "x"; target = text "host:h"; value = 0 }

abbrev registration : ApiPayload
registration = record {
  action = text "mesh_register";
  content = b'{' ∷ 0 ∷ 0 ∷ 0 ∷ 7 ∷ (text "host_id" ++ (5 ∷ 1 ∷ b'h' ∷ []));
  target = [];
  value = 0;
}

abbrev beat : ApiPayload
beat = record { action = text "dbsc_heartbeat_resp"; content = text "sig"; target = []; value = 0 }

abbrev null_rpc : ApiPayload
null_rpc = record { action = text "rpc"; content = text "null"; target = []; value = 0 }

abbrev bind : ApiPayload
bind = record { action = text "tunnel_bind"; content = text "{"; target = []; value = 0 }

abbrev document : ApiPayload → Bytes
document = marshal_api_payload sample

to_host_parses : unmarshal_api_payload sample (document to_host) ≡ some to_host
unfolding unmarshal_api_payload marshal_api_payload sample_print sample_parse to_lower ◌==◌
to_host_parses = refl

registration_parses : unmarshal_api_payload sample (document registration) ≡ some registration
unfolding unmarshal_api_payload marshal_api_payload sample_print sample_parse to_lower ◌==◌
registration_parses = refl

registration_names : unmarshal_host_id sample registration.content ≡ some (text "h")
unfolding unmarshal_host_id sample_print sample_parse to_lower ◌==◌
registration_names = refl

beat_parses : unmarshal_api_payload sample (document beat) ≡ some beat
unfolding unmarshal_api_payload marshal_api_payload sample_print sample_parse to_lower ◌==◌
beat_parses = refl

bind_parses : unmarshal_api_payload sample (document bind) ≡ some bind
unfolding unmarshal_api_payload marshal_api_payload sample_print sample_parse to_lower ◌==◌
bind_parses = refl

route_to_api_cases_example :
    let result = route_to_api sample router 9 2 (text "k1") (document to_host) gateway 0 in
    let (sent, delivered) = forward_to_host (text "h") (document to_host) gateway in
    (◌≡◌ {A = Bool} true false → result ≡ ok (gateway, 0))
    × (◌≡◌ {A = Bool} true true
        → ◌≡◌ {A = Bool} true true
        → delivered ≡ true
        → result ≡ ok (sent, 0))
    × ((handler : Bytes → Bytes → ℕ → ℕ)
        → ◌≡◌ {A = Bool} true true
        → (◌≡◌ {A = Bool} true true → delivered ≡ false)
        → ◌≡◌ {A = Option (Bytes → Bytes → ℕ → ℕ)} none (some handler)
        → result ≡ ok (sent, handler (text "k1") (text "x") 0))
    × (◌≡◌ {A = Bool} true true
        → (◌≡◌ {A = Bool} true true → delivered ≡ false)
        → ◌≡◌ {A = Option (Bytes → Bytes → ℕ → ℕ)} none none
        → result ≡ perform sample router 9 (text "k1") to_host sent 0)
unfolding ◌==◌ has_prefix lookup
route_to_api_cases_example =
    route_to_api_cases sample router 9 2 (text "k1") (document to_host) gateway 0 to_host
      to_host_parses (λ e. ground arith)

-- The peer "k2", which may do nothing, takes the host.
route_to_api-takes_host_example :
    (g' : Gateway open_net) × (route_to_api sample router 9 2
        (text "k2")
        (document registration)
        gateway
        0
      ≡ ok (g', 0))
    × (lookup (text "h") g'.host_sessions ≡ some (record { link = 2; signer = text "k2" }))
    × ((enc : Bytes) (cs : open_net.Cipher)
        → open_net.encrypt (gateway.links 2).cs_send (text "secret") ≡ (some enc, cs)
        → let (stream, fault) = write_frame open_net.write (gateway.links 2).stream enc in
          let (g'', delivered) = forward_to_host (text "h") (text "secret") g' in
          (g''.links 2 ≡ record { stream = stream; cs_send = cs })
          × (delivered ≡ not (is_some fault)))
    × ((k : ℕ)
        → 2 ≢ k
        → (forward_to_host (text "h") (text "secret") g').0.links k ≡ gateway.links k)
route_to_api-takes_host_example =
    route_to_api-takes_host sample router 9 2 (text "k2") (document registration) gateway 0
      registration (text "h") (text "secret") registration_parses refl registration_names refl

perform_panics_iff_example :
    (perform (record sample { parse = λ s. some null }) router 9 (text "k1") null_rpc gateway 0
      ≡ err nil_map)
    ↔ ((◌≡◌ {A = Bytes} (text "rpc") (text "rpc"))
        × (◌≡◌ {A = Option Json} (some null) (some null)))
perform_panics_iff_example =
    perform_panics_iff (record sample { parse = λ s. some null }) router 9 (text "k1") null_rpc
      gateway 0

monitor_heartbeat-route_to_api_example :
    (g' : Gateway open_net) × (route_to_api sample router 9 1 (text "k1") (document beat) gateway 0
      ≡ ok (g', 0))
    × ((now : ℕ)
        → ((monitor_heartbeat sample now (text "c") 1 (text "k1") g').1 ≡ closes)
          ↔ (unix 9 + 180 < unix now))
unfolding has_prefix ◌==◌ lookup
monitor_heartbeat-route_to_api_example =
    monitor_heartbeat-route_to_api sample router 9 1 (text "k1") (document beat) (text "c") gateway
      0 beat beat_parses refl refl refl refl

open_session-Starts_example :
    Starts router agree 9 3 gateway 0
      (open_session responder router agree 9 3 [] (0 ∷ 0 ∷ 0 ∷ 2 ∷ text "k1") gateway 0)
open_session-Starts_example =
    open_session-Starts responder router agree 9 3 [] (0 ∷ 0 ∷ 0 ∷ 2 ∷ text "k1") gateway 0

abbrev services : Services ℕ
services = record {
  validate_cookie_token = λ token. none;
  evaluate = λ subject action object. false;
  put = λ key value ttl s. (s, true);
}

abbrev session : Session open_net
session = record { link = 1; remote_key = text "k1"; cs_recv = 0 }

abbrev tunnels : Tunnels
tunnels = record { tunnels = []; watchers = []; closed = [] }

-- "k1" opens a session, registers a host, and is gone.
abbrev sent_by_k1 : Bytes
sent_by_k1 = (0 ∷ 0 ∷ 0 ∷ 2 ∷ text "k1") ++ (frame (document registration) ++ text "??")

handle_secure_stream-IsEnd_example :
    IsEnd gateway no_module
      (length gateway.bus + length sent_by_k1)
      (open_session responder router agree 9 3 [] sent_by_k1 gateway 0)
      (handle_secure_stream sample router services 7
        (λ k. 9)
        responder
        agree
        (suc (length sent_by_k1))
        9
        3
        []
        sent_by_k1
        no_module
        gateway
        0)
handle_secure_stream-IsEnd_example =
    handle_secure_stream-IsEnd sample router services 7 (λ k. 9) responder agree 9 3
      (suc (length sent_by_k1)) [] sent_by_k1 no_module gateway 0 (omega arith)

open_session_test :
    (open_session responder router agree 9 3 [] (0 ∷ 0 ∷ 0 ∷ 2 ∷ text "k1") gateway 0).1
    ≡ some (record { link = 3; remote_key = text "k1"; cs_recv = 0 })
unfolding open_session secure_network.Framing.read_frame secure_network.Framing.write_frame ◌==◌
open_session_test = refl
