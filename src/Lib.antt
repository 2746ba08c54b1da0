-- ===== src/Lib.antt =====
-- Models and proofs for secure_network, a mesh network node in Go: nodes keep a Noise session over a
-- QUIC stream to a gateway and exchange JSON actions in length-prefixed frames over it.
--
-- The parts, and how they work together:
--   Framing (framing.go): WriteFrame and ReadFrame, over any writer and the bytes of a reader.
--   Mesh (mesh.go): the node's session (its keys are in Mesh/Keys, the check of a machine's signature in
--     Mesh/Attestation); SendAction marshals an action, encrypts and frames it.
--     Mesh/Connect is the initiator's handshake, and Mesh/Listen the loop that hands the actions that
--     come in to the RPC manager or an inbound handler, over a byte stream in Mesh/Listen/Stream.
--     Mesh/Delivery reads what was sent at the other
--     end of the session.
--   PeerRoute (peer_route.go): the registry of peers and their access policies; Broadcast and
--     SendToPeer wrap a payload in a PeerMessage and send it with SendAction.
--   Gossip (gossip.go): envelopes with a Lamport clock, sent through Broadcast; HandleIngress drops
--     what was seen within an hour, has the SDF engine verify the rest and runs a handler. Gossip/Service
--     is an abstract service that it refines.
--   Rpc (mesh_rpc.go): calls and their answers over Broadcast and SendToPeer. Call is the steps
--     begin_call and end_call around its select.
--   Tunnel (tunnel.go): RegisterTunnel authenticates an agent and gives it a subdomain, which the
--     public proxy dials; the goroutine that takes a subdomain down is the step cleanup. Tunnel/Agent is the
--     agent at the other end, and its reconnect loop.
--   Gateway (gateway.go, DispatchProtocol of router.go): the other end of a mesh session. Gateway routes
--     an action (routeToAPI); Gateway/Session opens a session, handles a frame and ends, and checks
--     the heartbeat, each a step.
--     Gateway/Session/Run is HandleSecureStream as a whole, and Gateway/Session/Agents what it makes of
--     the request of a tunnel's agent.
--   Router (router.go): the ingress, which names a session's subject to the backend, hands a request to
--     the tunnel or to the Mux and announces the registration of a device-bound session; the tunnel
--     that is taken over; the servers that listen; in Router/Kernel the routes of Boot, with the endpoints
--     of dbsc.go behind the ingress. Tls (tls_acme.go) resolves the certificates, Dbsc
--     (dbsc.go) starts and refreshes device-bound sessions; Http is what they use of net/http.
--   Node (node.go): the assembly of a node from its mesh node, peer route, gossip and RPC manager.
--   Wire: the structs that travel as JSON (peer_route.go, gossip.go, mesh_rpc.go, tunnel.go,
--     gateway.go), with encoding/json's reading of their tags. Json, Strings, Prelude: the parts of
--     the standard library that the code uses, and lemmas. Platform: what the code calls and does not
--     implement.
--
-- A definition has the name of its Go function in snake_case; a method takes its receiver as an
-- argument and returns the new one. A helper stands for one part of its function's body.
--
-- How the data is modelled:
--   A string or a byte slice is a list of numbers; a nil slice and an empty one are not told apart.
--   A map is an association list with distinct keys; no result depends on the order of a map's
--   iteration. Each section under a lock is one step, and interleavings are sequences of steps.
--   A uint64 or int64 is its 64-bit pattern, and its arithmetic wraps at 2 ^ 64.
--   A time is a number of nanoseconds (gossip, peers, rpc) or of seconds (tunnels) since 1970, and the
--   readings of the clock within one call are one value.
--   strings.ToLower and TrimSpace, and the case-insensitive names of JSON members, are modelled for
--   ASCII.
--   The syntax of a JSON document and of a time in it is the interface JsonText, with what is relied
--   on as IsJsonText; Json/Sample shows that this can be kept. What Unmarshal makes of a document
--   (names, null, types, ranges, base64, omitempty) is defined in full.
--   LocalBus, a channel of 2048 events, is a list: a send on a full one, as a panic, is an error that no call
--   comes back from (Halt). Nothing in the program receives from it.
--   SHA-256, QUIC streams, Noise cipher states, the SDF engine, the policy engine, the session manager
--   and the key-value store are parameters; callbacks and engines act on an abstract state.
--   A peer record is an object that the registry shares with its caller: the registry keeps references
--   into a store.
--   session_loop and listen_stream have fuel, which bounds the number of frames; more fuel than the
--   stream has bytes is enough, since each frame takes at least one. The agent's loop never ends and
--   is run for a list of rounds. Every other loop of the modelled code ends with the list that it goes
--   over.
--
-- Not modelled: logging; Init and Name of the parts, which only set or return a field; the modules'
-- Start; the HTTP and QUIC servers and the copying of streams, which are input and output; Close and
-- Shutdown of a node, but for what listenLoop sees of them. What certificates, keys, tokens and URLs
-- are is a parameter.
pub mod Prelude
pub mod Framing
pub mod Strings
pub mod Json
pub mod Wire
pub mod Platform
pub mod Mesh
pub mod PeerRoute
pub mod Gossip
pub mod Rpc
pub mod Tunnel
pub mod Gateway
pub mod Http
pub mod Router
pub mod Dbsc
pub mod Tls
pub mod Node
