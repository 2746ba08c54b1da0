-- ===== src/Mesh/Delivery.antt =====
-- What SendAction puts on the stream, read at the other end of the session.
use secure_network.Prelude.{
  ◌+◌, ◌^◌, ◌<◌, ◌≤◌, ◌≡◌, refl, ap, sym, ◌∙◌, Option, none, some, arith, Bytes, length, ◌++◌, ok,
}
use secure_network.Framing.{write_frame, read_frame, max_frame_size}
use secure_network.Framing.Laws.{IsWriter, frame, read_frame-frame, write_frame-contents}
use secure_network.Json.{JsonText, IsJsonText, IsPlain}
use secure_network.Wire.{
  ApiPayload, api_payload_members, marshal_api_payload, unmarshal_api_payload,
}
use secure_network.Wire.RoundTrip.{unmarshal_api_payload-marshal}
use secure_network.Platform.{Transport}
use secure_network.Mesh.{MeshNode, flush, fault_of, send_on, send_action}

-- What an AEAD session promises of the cipher states of its two ends: what one end encrypted the other
-- decrypts, after which they fit again, and the tag adds 16 bytes.
pub record IsChannel (net : Transport) (Fit : net.Cipher → net.Cipher → Type 0) : Type 0 where
  pub opens :
      (a a' b : net.Cipher) (p enc : Bytes)
      → Fit a b
      → net.encrypt a p ≡ (some enc, a')
      → (b' : net.Cipher) × (net.decrypt b enc ≡ (some p, b')) × Fit a' b'
  pub seals :
      (a a' : net.Cipher) (p enc : Bytes)
      → net.encrypt a p ≡ (some enc, a')
      → length enc ≡ length p + 16

module _ (net : Transport) (contents : net.Stream → Bytes) (Fit : net.Cipher → net.Cipher → Type 0)
    (writer : IsWriter net.write contents) (channel : IsChannel net Fit) where
  -- The stream got one frame, which ReadFrame returns and the other end decrypts to the text.
  abbrev pub Delivers : net.Stream → net.Cipher → Bytes → MeshNode net → Type 0
  Delivers w b d m' =
      (w' : net.Stream) × (enc : Bytes) × (a' : net.Cipher) × (b' : net.Cipher) × (m'.stream
        ≡ some w')
      × (m'.cs_send ≡ some a')
      × (contents w' ≡ contents w ++ frame enc)
      × ((rest : Bytes) → read_frame (frame enc ++ rest) max_frame_size ≡ (ok enc, rest))
      × (net.decrypt b enc ≡ (some d, b'))
      × Fit a' b'

  fault_of-none : (o : Option net.Fault) → fault_of net o ≡ none → o ≡ none
  fault_of-none none e = refl
  fault_of-none (some f) e = cc

  flush-Delivers :
      (w : net.Stream) (a b : net.Cipher) (d : Bytes) (m m' : MeshNode net)
      (sealed : Option Bytes × net.Cipher)
      → Fit a b
      → length d + 16 ≤ max_frame_size
      → net.encrypt a d ≡ sealed
      → flush net m w sealed ≡ (m', none)
      → Delivers w b d m'
  unfolding flush
  flush-Delivers w a b d m m' (none, cs) fit small seal e = cc
  flush-Delivers w a b d m m' (some enc, cs) fit small seal e =
      let long = channel.seals a cs d enc seal in
      let (b', opened, fit') = channel.opens a cs b d enc fit seal in
      let done = fault_of-none (write_frame net.write w enc).1 (ap (λ r. r.1) e) in
      let left = ap (λ r. r.0) e in
      (
        (write_frame net.write w enc).0,
        enc,
        cs,
        b',
        sym (ap (λ (x : MeshNode net). x.stream) left),
        sym (ap (λ (x : MeshNode net). x.cs_send) left),
        write_frame-contents net.write contents writer w enc (omega (arith, long)) done,
        λ rest.
            read_frame-frame max_frame_size enc rest (omega arith) (omega (arith, long))
              (omega (arith, long)),
        opened,
        fit',
      )

  -- SendAction delivers: on a node with a stream and a sending cipher state that fits the other end's
  -- receiving one, if it returns nil, then it wrote one frame to the stream, which ReadFrame returns at
  -- the other end whatever follows it; the other end decrypts it to a document that Unmarshal reads
  -- as the same action, and the cipher states fit again. The action's texts are ASCII, and its document
  -- leaves room for the tag in a frame.
  pub unmarshal_api_payload-send_action :
      (j : JsonText) (w : net.Stream) (a b : net.Cipher) (p : ApiPayload) (m m' : MeshNode net)
      → IsJsonText j
      → IsPlain (api_payload_members j p)
      → p.value < 2 ^ 64
      → length (marshal_api_payload j p) + 16 ≤ max_frame_size
      → m.stream ≡ some w
      → m.cs_send ≡ some a
      → Fit a b
      → send_action net j m p ≡ (m', none)
      → (d : Bytes) × Delivers w b d m' × (unmarshal_api_payload j d ≡ some p)
  unfolding send_action send_on
  unmarshal_api_payload-send_action j w a b p m m' law plain value small stream cipher fit sent =
      let d = marshal_api_payload j p in
      (
        d,
        flush-Delivers w a b d m m' (net.encrypt a d) fit small refl (
            sym (ap (λ (o : Option net.Stream). send_on net d m o (some a)) stream)
            ∙ sym (ap (λ (o : Option net.Cipher). send_on net d m m.stream o) cipher)
            ∙ sent),
        unmarshal_api_payload-marshal j law p plain value,
      )
