-- ===== src/Rpc/Tests.antt =====
-- The RPC manager's theorems at concrete packets.
use secure_network.Prelude.{
  ℕ, ◌+◌, ◌≡◌, refl, true, false, List, [], ◌∷◌, ◌++◌, none, some, arith, Bytes, text, ◌==◌, lookup,
  insert, delete, if◌then◌else◌, Result, ok, err,
}
use secure_network.Strings.{to_lower, is_empty}
use secure_network.Strings.Hex.{encode_hex}
use secure_network.Strings.Base64.{encode_base64, decode_base64}
use secure_network.Json.{IsPlain}
use secure_network.Json.Sample.{
  sample, sample_print, sample_parse, sample_time, unary, sample-IsJsonText,
}
use secure_network.Wire.{
  RpcPacket, PeerMessage, marshal_rpc_packet, unmarshal_rpc_packet, marshal_peer_message,
  peer_message_members,
}
use secure_network.Platform.{Transport, Engine}
use secure_network.Mesh.{MeshNode}
use secure_network.PeerRoute.{send_to_peer}
use secure_network.Rpc.{
  RpcManager, RpcHandler, CallError, response, timeout, remote, new_rpc_manager, handle_ingress,
  begin_call, end_call, reply, rpc_script, rpc_invocation,
}
use secure_network.Rpc.Ingress.{handle_ingress-marshal_peer_message}
use secure_network.Rpc.Calls.{Event, receives, begins, step, run, Came, end_call-answer}

abbrev allow : Engine ℕ
allow script tx s = (s, true)

abbrev plain_net : Transport
plain_net = record {
  Stream = Bytes;
  Fault = Unit {0};
  write = λ w p. (w ++ p, none);
  Cipher = ℕ;
  encrypt = λ c p. (some p, c + 1);
  decrypt = λ c p. (some p, c + 1);
}

abbrev node : MeshNode plain_net
node = record { noise_pub = text "k"; stream = some []; cs_send = some 0; cs_recv = none }

abbrev echo : RpcHandler ℕ
echo payload s = (s + 1, payload, none)

abbrev answer : RpcPacket
answer = record {
  id = text "6131";
  method = [];
  payload = text "ok";
  source = [];
  target = [];
  timestamp = 0;
  response = true;
  error = [];
}

abbrev question : RpcPacket
question = record {
  id = text "7";
  method = text "m";
  payload = text "ok";
  source = text "s1";
  target = [];
  timestamp = 3;
  response = false;
  error = [];
}

abbrev wrapped : PeerMessage
wrapped = record {
  id = text "1";
  route = text "rpc";
  payload = text "ok";
  origin = text "k";
  timestamp = 2;
}

answer_parses : unmarshal_rpc_packet sample (marshal_rpc_packet sample answer) ≡ some answer
unfolding unmarshal_rpc_packet marshal_rpc_packet sample_print sample_parse sample_time unary
    to_lower ◌==◌ encode_base64 decode_base64
answer_parses = refl

question_parses : unmarshal_rpc_packet sample (marshal_rpc_packet sample question) ≡ some question
unfolding unmarshal_rpc_packet marshal_rpc_packet sample_print sample_parse sample_time unary
    to_lower ◌==◌ encode_base64 decode_base64
question_parses = refl

wrapped-IsPlain : IsPlain (peer_message_members sample wrapped)
unfolding encode_base64 unary
wrapped-IsPlain = ground arith

abbrev answered : Result CallError Bytes
answered = ok (text "ok")

abbrev history : List (ℕ × Event ℕ)
history =
    (6, receives (marshal_rpc_packet sample answer))
    ∷ (5, begins (text "a1") (text "p") (text "m") (text "in"))
    ∷ []

abbrev after_history : RpcManager ℕ
after_history = (run plain_net sample (λ b. b) allow (new_rpc_manager, some node, 0) history).0

woken_up : (end_call response (text "a1") after_history).1 ≡ some answered
unfolding end_call secure_network.Rpc.woken run step handle_ingress begin_call new_rpc_manager
    secure_network.Rpc.begun secure_network.Rpc.receive secure_network.Rpc.deposit send_to_peer
    unmarshal_rpc_packet marshal_rpc_packet sample_print sample_parse sample_time unary to_lower
    ◌==◌ encode_base64 decode_base64 encode_hex lookup insert delete secure_network.Mesh.send_action
    secure_network.Framing.write_frame
woken_up = refl

end_call-answer_example :
    (p : RpcPacket) × (p.id ≡ encode_hex (text "a1"))
    × (p.response ≡ true)
    × Came plain_net sample (λ b. b) allow history p
    × (answered ≡ (if is_empty p.error then ok p.payload else err (remote p.error)))
end_call-answer_example =
    end_call-answer plain_net sample (λ b. b) allow (some node) 0 history (text "a1") answered
      woken_up

abbrev waiting : RpcManager ℕ
waiting = record { handlers = (text "m", echo) ∷ []; pending = (text "6131", none) ∷ [] }

handle_ingress-marshal_peer_message_example :
    handle_ingress plain_net sample
      (λ b. b)
      allow
      6
      (marshal_peer_message sample wrapped)
      waiting
      (some node)
      0
    ≡ (waiting, some node, 0)
handle_ingress-marshal_peer_message_example =
    handle_ingress-marshal_peer_message plain_net sample (λ b. b) allow 6 wrapped waiting
      (some node) 0 sample-IsJsonText wrapped-IsPlain
