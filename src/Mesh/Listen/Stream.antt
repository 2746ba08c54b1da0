-- ===== src/Mesh/Listen/Stream.antt =====
-- listenLoop of mesh.go on the bytes that its stream delivers before it ends, and the loop that Connect
-- starts. `clock` gives the time of each frame, and fuel bounds the number of frames; `is_done` tells for
-- each pass whether the context is done when the pass starts, that is whether Close has been called.
mod Tests
use secure_network.Prelude.{
  ℕ, zero, suc, ◌+◌, ◌<◌, ◌≤◌, ◌≡◌, ◌≢◌, refl, ap, sym, ◌∙◌, List, [], ◌∷◌, ◌++◌, Option, none,
  some, arith, Bool, true, false, Bool-cases, if◌then◌else◌, Bytes, length, append_assoc, Result,
  ok, err, Result-cases, inl, inr,
}
use secure_network.Framing.{FrameError, read_frame, max_frame_size}
use secure_network.Framing.Laws.{frame, read_frame-frame}
use secure_network.Framing.Consumption.{read_frame-length_le, read_frame-length_lt}
use secure_network.Json.{JsonText}
use secure_network.Platform.{Transport, Engine}
use secure_network.Mesh.{MeshNode}
use secure_network.Mesh.Connect.{Initiator, ConnectError, connect}
use secure_network.Mesh.Connect.Offline.{WritesNoCiphers, connect-no_receiver}
use secure_network.Mesh.Listen.{
  Node, Panic, nil_cipher, listen_frame, listen_loop, listen_frame_nil,
}

module _ {net : Transport} (j : JsonText) (sha256 : Bytes → Bytes) {S : Type 0} (compile : Engine S)
    (clock : ℕ → ℕ) (is_done : ℕ → Bool) where
  -- What follows the body, where `next` is the loop from the next frame on.
  after_body :
      (Node net S → S → Option (Result Panic (Node net S × S)))
      → Result Panic (Node net S × S)
      → Option (Result Panic (Node net S × S))
  after_body next (err panic) = some (err panic)
  after_body next (ok (n, s)) = next n s

  -- What follows ReadFrame: its error ends the loop.
  on_read :
      Node net S
      → S
      → (Bytes → Option (Result Panic (Node net S × S)))
      → Result FrameError Bytes
      → Option (Result Panic (Node net S × S))
  on_read n s next (err e) = some (ok (n, s))
  on_read n s next (ok frame) = next frame

  -- The select, where `rest` is the rest of the pass.
  unless_done :
      Node net S
      → S
      → Option (Result Panic (Node net S × S))
      → Bool
      → Option (Result Panic (Node net S × S))
  unless_done n s rest true = some (ok (n, s))
  unless_done n s rest false = rest

  -- The loop from its `k`-th pass on, `none` where the fuel did not last.
  pub listen_stream : ℕ → ℕ → Bytes → Node net S → S → Option (Result Panic (Node net S × S))
  unfolding after_body on_read unless_done
  listen_stream zero k incoming n s = none
  listen_stream (suc fuel) k incoming n s =
      let (read, rest) = read_frame incoming max_frame_size in
      unless_done n s
        (on_read n s
          (λ frame.
            after_body (λ n' s'. listen_stream fuel (suc k) rest n' s')
              (listen_frame net j sha256 compile (clock k) frame n s))
          read)
        (is_done k)

  abbrev start_loop :
      ℕ
      → Bytes
      → Node net S
      → MeshNode net × S × Option ConnectError
      → Result ConnectError (Option (Result Panic (Node net S × S)))
  start_loop fuel rest n (m, s, some e) = err e
  start_loop fuel rest n (m, s, none) = ok (listen_stream fuel 0 rest (record n { mesh = m }) s)

  -- Connect with the loop it starts, which reads on where Connect stopped.
  pub connect_and_listen :
      Initiator net
      → ℕ
      → Option net.Stream
      → Bytes
      → Node net S
      → S
      → Result ConnectError (Option (Result Panic (Node net S × S)))
  connect_and_listen noise fuel dialled incoming n s =
      start_loop fuel (read_frame incoming max_frame_size).1 n
        (connect noise compile dialled incoming n.mesh s)

-- The frames of the payloads, one behind the other.
abbrev pub frames : List Bytes → Bytes
frames [] = []
frames (p ∷ ps) = frame p ++ frames ps

abbrev pub AreFrameable : List Bytes → Type 0
AreFrameable [] = Unit
AreFrameable (p ∷ ps) = (0 < length p) × (length p ≤ max_frame_size) × AreFrameable ps

-- The payloads with their times, up to the first pass that finds the context done.
abbrev pub timed : (ℕ → Bool) → (ℕ → ℕ) → ℕ → List Bytes → List (ℕ × Bytes)
timed is_done clock k [] = []
timed is_done clock k (p ∷ ps) =
    let later = timed is_done clock (suc k) ps in if is_done k then [] else (clock k, p) ∷ later

module _ {net : Transport} (j : JsonText) (sha256 : Bytes → Bytes) {S : Type 0} (compile : Engine S)
    (clock : ℕ → ℕ) (is_done : ℕ → Bool) where
  unless_done-returns :
      (n : Node net S) (s : S) (rest : Option (Result Panic (Node net S × S))) (done : Bool)
      → rest ≢ none
      → unless_done j sha256 compile clock is_done n s rest done ≢ none
  unfolding unless_done
  unless_done-returns n s rest true returns = λ same. ground arith
  unless_done-returns n s rest false returns = returns

  on_read-returns :
      (n : Node net S) (s : S) (next : Bytes → Option (Result Panic (Node net S × S)))
      (read : Result FrameError Bytes)
      → ((p : Bytes) → read ≡ ok p → next p ≢ none)
      → on_read j sha256 compile clock is_done n s next read ≢ none
  unfolding on_read
  on_read-returns n s next (err e) returns = λ same. ground arith
  on_read-returns n s next (ok p) returns = returns p refl

  after_body-returns :
      (next : Node net S → S → Option (Result Panic (Node net S × S)))
      (done : Result Panic (Node net S × S))
      → ((n : Node net S) (s : S) → next n s ≢ none)
      → after_body j sha256 compile clock is_done next done ≢ none
  unfolding after_body
  after_body-returns next (err panic) returns = λ same. ground arith
  after_body-returns next (ok (n, s)) returns = returns n s

  -- listenLoop comes back, or panics, once its stream has ended: with more fuel than the stream has
  -- bytes it never runs out of fuel, whatever the bytes and the node are.
  pub listen_stream-returns :
      (fuel k : ℕ) (incoming : Bytes) (n : Node net S) (s : S)
      → length incoming < fuel
      → listen_stream j sha256 compile clock is_done fuel k incoming n s ≢ none
  unfolding listen_stream
  listen_stream-returns zero k incoming n s enough = absurd (omega arith)
  listen_stream-returns (suc fuel) k incoming n s enough =
      let (read, rest) = read_frame incoming max_frame_size in
      unless_done-returns n s _ (is_done k) (
        on_read-returns n s _ read (λ p is_read.
          let shorter = read_frame-length_lt incoming p max_frame_size is_read in
          after_body-returns _ (listen_frame net j sha256 compile (clock k) p n s)
            (λ n' s'. listen_stream-returns fuel (suc k) rest n' s' (omega arith))))

  after_body-listen_loop :
      (next : Node net S → S → Option (Result Panic (Node net S × S))) (now : ℕ) (p : Bytes)
      (later : List (ℕ × Bytes)) (n : Node net S) (s : S)
      → ((n : Node net S) (s : S) → next n s ≡ some (listen_loop net j sha256 compile later n s))
      → after_body j sha256 compile clock is_done next (listen_frame net j sha256 compile now p n s)
        ≡ some (listen_loop net j sha256 compile ((now, p) ∷ later) n s)
  unfolding after_body listen_loop
  after_body-listen_loop next now p later n s same =
      elim (Result-cases (listen_frame net j sha256 compile now p n s)) [
        | inl (e, is_err) ↦ rw (listen_loop, is_err) refl
        | inr ((n', s'), is_ok) ↦ rw (listen_loop, is_ok) (same n' s')
      ]

  -- On a stream of whole frames, of payloads that are neither empty nor above MaxFrameSize, and then
  -- bytes of which ReadFrame returns an error, listenLoop runs its body on each payload, in order and
  -- with its time, up to a panic or to the first pass that finds the context done, and does nothing
  -- else: fuel above the number of the frames is enough.
  pub listen_stream-frames :
      (fuel k : ℕ) (ps : List Bytes) (tail : Bytes) (e : FrameError) (n : Node net S) (s : S)
      → AreFrameable ps
      → (read_frame tail max_frame_size).0 ≡ err e
      → length ps < fuel
      → listen_stream j sha256 compile clock is_done fuel k (frames ps ++ tail) n s
        ≡ some (listen_loop net j sha256 compile (timed is_done clock k ps) n s)
  unfolding listen_stream on_read unless_done listen_loop
  listen_stream-frames zero k ps tail e n s fit ends enough = absurd (omega arith)
  listen_stream-frames (suc fuel) k [] tail e n s fit ends enough = elim (Bool-cases (is_done k)) [
    | inl done ↦ rw done refl
    | inr goes ↦ rw goes (rw ends refl)
  ]
  listen_stream-frames (suc fuel) k (p ∷ ps) tail e n s (pos, small, fit) ends enough =
      let reads =
        ap (λ b. read_frame b max_frame_size) (append_assoc (frame p) (frames ps) tail)
        ∙ read_frame-frame max_frame_size p (frames ps ++ tail) (omega arith) pos small in
      elim (Bool-cases (is_done k)) [
        | inl done ↦ rw done refl
        | inr goes ↦ rw goes (
            rw reads (
              after_body-listen_loop _ (clock k) p (timed is_done clock (suc k) ps) n s (λ n' s'.
                listen_stream-frames fuel (suc k) ps tail e n' s' fit ends (omega arith))))
      ]

module _ {net : Transport} (noise : Initiator net) (law : WritesNoCiphers noise) (j : JsonText)
    (sha256 : Bytes → Bytes) {S : Type 0} (compile : Engine S) (clock : ℕ → ℕ)
    (is_done : ℕ → Bool) where
  on_read_nil :
      (fuel k : ℕ) (rest : Bytes) (n : Node net S) (s : S) (read : Result FrameError Bytes)
      → n.mesh.cs_recv ≡ none
      → on_read j sha256 compile clock is_done n s
          (λ frame.
            after_body j sha256 compile clock is_done
              (λ n' s'. listen_stream j sha256 compile clock is_done fuel k rest n' s')
              (listen_frame net j sha256 compile (clock 0) frame n s))
          read
        ≡ some (elim read [ ok _ ↦ err nil_cipher | err _ ↦ ok (n, s) ])
  unfolding on_read after_body
  on_read_nil fuel k rest n s (err e) nil = refl
  on_read_nil fuel k rest n s (ok p) nil =
      rw (listen_frame_nil net j sha256 compile (clock 0) p n s nil) refl

  -- A node that has connected is stopped by the first frame it receives. Where Connect returns nil, the
  -- loop that it starts panics on the first frame behind the gateway's answer, whatever the frame holds,
  -- and comes back at once if no frame can be read. That is so for a handshake library that returns no
  -- cipher states with the first message of a pattern of two, and for a loop that starts before the
  -- context is done.
  pub connect_and_listen_panics :
      (fuel : ℕ) (stream : net.Stream) (incoming : Bytes) (n : Node net S) (m' : MeshNode net)
      (s s' : S)
      → connect noise compile (some stream) incoming n.mesh s ≡ (m', s', none)
      → is_done 0 ≡ false
      → connect_and_listen j sha256 compile clock is_done noise
          (suc fuel)
          (some stream)
          incoming
          n
          s
        ≡ ok (
            some (elim (read_frame (read_frame incoming max_frame_size).1 max_frame_size).0 [
              | ok _ ↦ err nil_cipher
              | err _ ↦ ok (record n { mesh = m' }, s')
            ]))
  unfolding connect_and_listen listen_stream unless_done
  connect_and_listen_panics fuel stream incoming n m' s s' connects goes =
      let (read, rest) = read_frame (read_frame incoming max_frame_size).1 max_frame_size in
      let nil = connect-no_receiver noise compile stream incoming n.mesh m' s s' law connects in
      rw connects
        (rw goes (ap (λ x. ok x) (on_read_nil fuel 1 rest (record n { mesh = m' }) s' read nil)))
