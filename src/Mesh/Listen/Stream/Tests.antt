-- ===== src/Mesh/Listen/Stream/Tests.antt =====
-- The loop of a mesh node on a concrete stream.
use secure_network.Prelude.{
  ltb, false, ◌<◌, ◌≤◌, ◌≡◌, refl, [], ◌∷◌, ◌++◌, none, some, arith, Bytes, text, length, ok, err,
}
use secure_network.Json.Sample.{sample, sample_print}
use secure_network.Wire.{marshal_api_payload}
use secure_network.Framing.{unexpected_eof, read_frame, write_frame, max_frame_size}
use secure_network.Mesh.Connect.{connect}
use secure_network.Mesh.Listen.{nil_cipher, listen_loop}
use secure_network.Mesh.Listen.Stream.{
  listen_stream, listen_stream-frames, connect_and_listen, connect_and_listen_panics, frames,
}
use secure_network.Mesh.Tests.{
  wire, agrees, initiator, initiator-WritesNoCiphers, new_node, after_connect, node, ssh,
}

abbrev request : Bytes
request = marshal_api_payload sample ssh

-- The gateway's answer, and then one frame.
abbrev answered : Bytes
answered = 0 ∷ 0 ∷ 0 ∷ 2 ∷ text "hi" ++ (0 ∷ 0 ∷ 0 ∷ 3 ∷ text "abc")

request_pos : 0 < length request
unfolding marshal_api_payload sample_print
request_pos = omega arith

request_small : length request ≤ max_frame_size
unfolding marshal_api_payload sample_print
request_small = omega arith

cut : (read_frame (0 ∷ 0 ∷ []) max_frame_size).0 ≡ err unexpected_eof
unfolding read_frame
cut = refl

-- Three requests, and then a frame that is cut off; Close is called after the second request.
listen_stream-frames_example :
    listen_stream sample
      (λ b. b)
      agrees
      (λ k. k)
      (ltb 1)
      4
      0
      (frames (request ∷ request ∷ request ∷ []) ++ (0 ∷ 0 ∷ []))
      node
      0
    ≡ some (listen_loop wire sample (λ b. b) agrees ((0, request) ∷ (1, request) ∷ []) node 0)
listen_stream-frames_example =
    listen_stream-frames sample (λ b. b) agrees (λ k. k) (ltb 1) 4 0
      (request ∷ request ∷ request ∷ []) (0 ∷ 0 ∷ []) unexpected_eof node 0
      (request_pos, request_small, (request_pos, request_small, (request_pos, request_small, tt)))
      cut (omega arith)

connects_to_answer :
    connect initiator agrees (some []) answered new_node 0 ≡ (after_connect, 0, none)
unfolding connect read_frame write_frame
connects_to_answer = refl

-- The frame behind the answer stops the program.
connect_and_listen_panics_example :
    connect_and_listen sample
      (λ b. b)
      agrees
      (λ k. k)
      (λ k. false)
      initiator
      14
      (some [])
      answered
      (record node { mesh = new_node })
      0
    ≡ ok (some (err nil_cipher))
unfolding read_frame
connect_and_listen_panics_example =
    connect_and_listen_panics initiator initiator-WritesNoCiphers sample (λ b. b) agrees (λ k. k)
      (λ k. false) 13 [] answered (record node { mesh = new_node }) after_connect 0 0
      connects_to_answer refl
