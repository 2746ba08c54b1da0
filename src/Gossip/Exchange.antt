-- ===== src/Gossip/Exchange.antt =====
-- An envelope from Publish of one node (gossip.go) over its mesh node to HandleIngress of another.
mod Tests
use secure_network.Prelude.{
  sym, subst, refl, length, ◌≤◌, ℕ, ◌+◌, ◌<◌, ◌≡◌, ap, ◌∙◌, Bool, true, false, Option, none, some,
  arith, Bytes, text, lookup, lookup-insert_self,
}
use secure_network.Strings.Hex.{IsByteList}
use secure_network.Json.{JsonText, IsJsonText, IsPlain}
use secure_network.Wire.{
  ApiPayload, PeerMessage, peer_message_members, api_payload_members, marshal_api_payload,
  unmarshal_api_payload, unmarshal_peer_message, GossipEnvelope, gossip_envelope_members,
  marshal_gossip_envelope, unmarshal_gossip_envelope,
}
use secure_network.Wire.RoundTrip.{unmarshal_gossip_envelope-marshal}
use secure_network.Platform.{Transport, Engine}
use secure_network.Mesh.{MeshNode}
use secure_network.Framing.{max_frame_size}
use secure_network.Framing.Laws.{IsWriter}
use secure_network.Mesh.Delivery.{IsChannel, Delivers}
use secure_network.PeerRoute.{RouteError, broadcast, peer_message, rpc_action}
use secure_network.PeerRoute.Sending.{broadcast-Delivers}
use secure_network.Gossip.{
  GossipManager, IngressError, hour, is_duplicate, observe, checked, handle_ingress, publish,
  envelope,
}
use secure_network.Gossip.Ingress.{handle_ingress-fresh, handle_ingress-duplicate}
use secure_network.Gossip.Clock.{max_clock, handle_ingress-clock, publish-clock}

abbrev joined : {A : Type 0} → Option (Option A) → Option A
joined none = none
joined (some o) = o

module _ {T S : Type 0} (net : Transport) (j : JsonText) (law : IsJsonText j)
    (sha256 : Bytes → Bytes) (compile : Engine S) (verified : Bool) (now later : ℕ)
    (service payload signature : Bytes) (sender : GossipManager T) (receiver : GossipManager S)
    (s : S) where
  abbrev pub published : GossipEnvelope
  published = envelope now service payload signature (sender.lamport + 1)

  abbrev pub wire_text : Bytes
  wire_text = marshal_gossip_envelope j published

  -- What HandleIngress makes of a text, after Publish left the clock `clock`: it does with the envelope what
  -- the engine and the handler do with a fresh one, its clock is past the sender's and its own before, and
  -- the same text again, before an hour is over, changes nothing.
  pub record IsTaken (clock : ℕ) (raw : Bytes) : Type 0 where
    pub handled :
        let (gm, s', e) = handle_ingress j compile verified later raw receiver s in
        (s', e) ≡ checked compile verified (observe later published receiver) published s
    pub past_sender : clock < (handle_ingress j compile verified later raw receiver s).0.lamport
    pub past_receiver :
        receiver.lamport < (handle_ingress j compile verified later raw receiver s).0.lamport
    pub once :
        (again : ℕ)
        → again < later + hour
        → let (gm, s', e) = handle_ingress j compile verified later raw receiver s in
          handle_ingress j compile verified again raw gm s' ≡ (gm, s', none)

  module _ (plain : IsPlain (gossip_envelope_members j published)) (bytes : IsByteList payload)
      (bytes' : IsByteList signature) (small : sender.lamport + 1 < max_clock) where
    held_duplicate :
        (gm : GossipManager S) (again : ℕ)
        → lookup published.id gm.seen ≡ some later
        → again < later + hour
        → is_duplicate again published.id gm.seen ≡ true
    unfolding is_duplicate
    held_duplicate gm again held soon = ground arith

    published_parses : unmarshal_gossip_envelope j wire_text ≡ some published
    unfolding envelope
    published_parses =
        unmarshal_gossip_envelope-marshal j law published plain bytes bytes' tt (omega arith)

    wire_text-IsTaken :
        receiver.lamport < max_clock
        → is_duplicate later published.id receiver.seen ≡ false
        → IsTaken (sender.lamport + 1) wire_text
    unfolding envelope observe
    wire_text-IsTaken below fresh =
        let taken = handle_ingress j compile verified later wire_text receiver s in
        let (up, past, in_range) =
          handle_ingress-clock j compile verified later wire_text published receiver s
            published_parses fresh below small in
        let result =
          handle_ingress-fresh j compile verified later wire_text receiver s published
            published_parses fresh in
        let held : lookup published.id taken.0.seen ≡ some later =
          ap (λ r. lookup published.id r.0.seen) result
          ∙ lookup-insert_self published.id later receiver.seen in
        record {
          handled = ap (λ r. (r.1, r.2)) result;
          past_sender = past;
          past_receiver = up;
          once = λ again soon.
              handle_ingress-duplicate j compile verified again wire_text taken.0 taken.1 published
                published_parses (held_duplicate taken.0 again held soon);
        }

    module _ (contents : net.Stream → Bytes) (Fit : net.Cipher → net.Cipher → Type 0)
        (writer : IsWriter net.write contents) (channel : IsChannel net Fit) (w : net.Stream)
        (a b : net.Cipher) (m m' : MeshNode net) (sender' : GossipManager T) where
      abbrev pub carried : PeerMessage
      carried = peer_message net j sha256 now (text "gossip") (text "gossip") wire_text m.noise_pub

      -- What one node publishes goes over its stream, and another's HandleIngress would take it once. A node
      -- with a stream and a sending cipher state that fits the receiving one of the other end publishes,
      -- and Publish returns nil. Then its clock went up, and one frame was written to the stream, which
      -- ReadFrame returns at the other end and which is decrypted to an action "rpc", whose content is
      -- a PeerMessage on the route "gossip". If that message's payload is handed to HandleIngress, which
      -- no code of this repository does, then the manager does with the envelope what the engine and the
      -- handler do with a fresh one, its clock is past the sender's and its own before, and the same
      -- payload again, before an hour is over, changes nothing. The texts are ASCII, the slices bytes,
      -- both clocks are below the largest uint64 with room for the sender's step, the action leaves room
      -- for the tag in a frame, and the receiver has not seen the id within an hour.
      pub publish-handle_ingress :
          IsPlain (peer_message_members j carried)
          → IsPlain (api_payload_members j (rpc_action net j sha256 now carried))
          → IsByteList wire_text
          → IsByteList m.noise_pub
          → length (marshal_api_payload j (rpc_action net j sha256 now carried)) + 16
            ≤ max_frame_size
          → m.stream ≡ some w
          → m.cs_send ≡ some a
          → Fit a b
          → receiver.lamport < max_clock
          → is_duplicate later published.id receiver.seen ≡ false
          → publish net j sha256 now service payload signature sender (some (some m))
            ≡ (sender', some (some m'), none)
          → (d : Bytes) × (action : ApiPayload) × (msg : PeerMessage) × Delivers net contents Fit
              writer channel w b d m'
            × (unmarshal_api_payload j d ≡ some action)
            × (action.action ≡ text "rpc")
            × (unmarshal_peer_message j action.content ≡ some msg)
            × (msg.route ≡ text "gossip")
            × (sender.lamport < sender'.lamport)
            × IsTaken sender'.lamport msg.payload
      publish-handle_ingress plain_msg plain_action raw_bytes key_bytes fits stream cipher fit below
            fresh published_it =
          let (alone, broadcasts) =
            publish-clock net j sha256 now service payload signature sender (some m)
              (omega arith) in
          let result = sym broadcasts ∙ published_it in
          let clock : sender.lamport + 1 ≡ sender'.lamport = ap (λ r. r.0.lamport) result in
          let sent : broadcast net j sha256 now (some m) (text "gossip") wire_text
              ≡ (some m', none) =
            ap (λ r. (joined r.1, r.2)) result in
          let (d, delivers, parsed, unwrapped, same_route, same_payload) =
            broadcast-Delivers net j sha256 now contents Fit writer channel law w a b m m'
              (text "gossip") wire_text plain_action plain_msg raw_bytes key_bytes fits stream
              cipher fit sent in
          (
            d,
            rpc_action net j sha256 now carried,
            carried,
            delivers,
            parsed,
            refl,
            unwrapped,
            same_route,
            omega (arith, clock),
            subst (λ n. IsTaken n carried.payload) clock
                (subst (IsTaken (sender.lamport + 1)) (sym same_payload)
                  (wire_text-IsTaken below fresh)),
          )
