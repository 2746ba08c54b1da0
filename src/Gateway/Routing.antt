-- ===== src/Gateway/Routing.antt =====
-- routeToAPI: what the policy engine decides, where an action goes, and what it changes.
use secure_network.Framing.{write_frame}
use secure_network.Prelude.{
  not, is_some, ℕ, ◌≡◌, ◌≢◌, ◌↔◌, refl, ◌∙◌, true, false, Option, none, some, arith, Bytes, text,
  drop, ◌==◌, eq_iff, if◌then◌else◌, lookup, insert, lookup-insert_self, Result, ok, err,
}
use secure_network.Strings.{is_empty, has_prefix}
use secure_network.Json.{Json, null, bool, int, real, str, arr, obj, JsonText}
use secure_network.Wire.{ApiPayload, unmarshal_api_payload, unmarshal_host_id}
use secure_network.Platform.{Transport}
use secure_network.Gateway.{
  Router, Gateway, HostPeer, Halt, nil_map, bus_full, resource_of, perform, publish_rpc, route,
  allowed, dispatch_protocol, route_to_api, forward_to_host, forward_on, registered, with_state,
}

module _ {net : Transport} (j : JsonText) {S : Type 0} (r : Router S) (now link : ℕ)
    (signer payload : Bytes) (g : Gateway net) (s : S) (req : ApiPayload)
    (parsed : unmarshal_api_payload j payload ≡ some req) where
  route_to_api-route :
      route_to_api j r now link signer payload g s ≡ route j r now link signer payload req g s
  unfolding route_to_api
  route_to_api-route = rw (parsed, route_to_api)

  -- Where an action goes that is not "mesh_register". If the policy engine refuses it, for the
  -- resource that the action and its target name, nothing changes. If it is allowed and the target
  -- names a host to which the whole payload could be sent, nothing else is done. Otherwise the
  -- action's protocol handler runs, where one is registered, on what forwarding left, and the built-in
  -- action where none is.
  pub route_to_api_cases :
      req.action ≢ text "mesh_register"
      → let result = route_to_api j r now link signer payload g s in
        let asked = r.evaluate signer req.action (resource_of req.action req.target) req.target in
        let (sent, delivered) = forward_to_host (drop 5 req.target) payload g in
        let forwards = has_prefix req.target (text "host:") in
        let left = if forwards then sent else g in
        (asked ≡ false → result ≡ ok (g, s))
        × (asked ≡ true → forwards ≡ true → delivered ≡ true → result ≡ ok (sent, s))
        × ((handler : Bytes → Bytes → S → S)
            → asked ≡ true
            → (forwards ≡ true → delivered ≡ false)
            → lookup req.action r.protocol_handlers ≡ some handler
            → result ≡ ok (left, handler signer req.content s))
        × (asked ≡ true
            → (forwards ≡ true → delivered ≡ false)
            → lookup req.action r.protocol_handlers ≡ none
            → result ≡ perform j r now signer req left s)
  unfolding route allowed dispatch_protocol
  route_to_api_cases other = rw route_to_api-route (
    λ no. ground (arith, eq_iff req.action (text "mesh_register")),
    λ yes_policy to_host done. ground (arith, eq_iff req.action (text "mesh_register")),
    λ handler yes_policy kept found. ground (arith, eq_iff req.action (text "mesh_register")),
    λ yes_policy kept missing. ground (arith, eq_iff req.action (text "mesh_register")),
  )

forward_on-other :
    {net : Transport} (n k : ℕ) (c : Option Bytes × net.Cipher) (g : Gateway net)
    → n ≢ k
    → (forward_on n c g).0.links k ≡ g.links k
unfolding forward_on
forward_on-other n k (none, cs) g ne = ground arith
forward_on-other n k (some enc, cs) g ne = ground arith

forward_on-link :
    {net : Transport} (n : ℕ) (enc : Bytes) (cs : net.Cipher) (g : Gateway net)
    → let (stream, fault) = write_frame net.write (g.links n).stream enc in
      let (g', delivered) = forward_on n (some enc, cs) g in
      (g'.links n ≡ record { stream = stream; cs_send = cs }) × (delivered ≡ not (is_some fault))
unfolding forward_on
forward_on-link n enc cs g = ground arith

-- "mesh_register" asks no policy: whatever the policy engine would say, a session that sends it with a
-- host id takes the id over from the session that had it. What is then forwarded to that host is encrypted
-- with the sending cipher state of the new session's link; where Encrypt succeeds, the link's stream is what
-- WriteFrame of the result leaves, its cipher state is the one that Encrypt left, and forwardToHost
-- reports whether WriteFrame returned nil. No other link changes.
pub route_to_api-takes_host :
    {net : Transport} (j : JsonText) {S : Type 0} (r : Router S) (now link : ℕ)
    (signer payload : Bytes) (g : Gateway net) (s : S) (req : ApiPayload) (host sent : Bytes)
    → unmarshal_api_payload j payload ≡ some req
    → req.action ≡ text "mesh_register"
    → unmarshal_host_id j req.content ≡ some host
    → is_empty host ≡ false
    → (g' : Gateway net) × (route_to_api j r now link signer payload g s ≡ ok (g', s))
      × (lookup host g'.host_sessions ≡ some (record { link = link; signer = signer }))
      × ((enc : Bytes) (cs : net.Cipher)
          → net.encrypt (g.links link).cs_send sent ≡ (some enc, cs)
          → let (stream, fault) = write_frame net.write (g.links link).stream enc in
            let (g'', delivered) = forward_to_host host sent g' in
            (g''.links link ≡ record { stream = stream; cs_send = cs })
            × (delivered ≡ not (is_some fault)))
      × ((k : ℕ) → link ≢ k → (forward_to_host host sent g').0.links k ≡ g.links k)
unfolding route registered forward_to_host
route_to_api-takes_host j r now link signer payload g s req host sent parsed register named full =
    let peer : HostPeer = record { link = link; signer = signer } in
    let found = lookup-insert_self host peer g.host_sessions in
    let g' : Gateway _ = record g { host_sessions = insert host peer g.host_sessions } in
    (
      g',
      route_to_api-route j r now link signer payload g s req parsed
          ∙ ground (arith, eq_iff req.action (text "mesh_register")),
      found,
      λ enc cs encrypts. rw (found, forward_to_host) (rw encrypts (forward_on-link link enc cs g')),
      λ k ne. rw (found, forward_to_host) (forward_on-other link k _ g' ne),
    )

publish_rpc_panics :
    {net : Transport} (j : JsonText) (signer : Bytes) (v : Option Json) (g : Gateway net)
    → (publish_rpc j signer v g ≡ err nil_map) ↔ (v ≡ some null)
unfolding publish_rpc
publish_rpc_panics j signer none g = (λ e. cc, λ e. cc)
publish_rpc_panics j signer (some null) g = (λ e. refl, λ e. refl)
publish_rpc_panics j signer (some (bool b)) g = (λ e. cc, λ e. cc)
publish_rpc_panics j signer (some (int b n)) g = (λ e. cc, λ e. cc)
publish_rpc_panics j signer (some (real t)) g = (λ e. cc, λ e. cc)
publish_rpc_panics j signer (some (str t)) g = (λ e. cc, λ e. cc)
publish_rpc_panics j signer (some (arr es)) g = (λ e. cc, λ e. cc)
publish_rpc_panics j signer (some (obj ms)) g = (λ e. absurd (ground arith), λ e. cc)

with_state_panics :
    {net : Transport} (j : JsonText) {S : Type 0} (r : Router S) (s : S)
    (x : Result Halt (Gateway net))
    → (with_state j r s x ≡ err nil_map) ↔ (x ≡ err nil_map)
with_state_panics j r s (ok g) = (λ e. cc, λ e. cc)
with_state_panics j r s (err nil_map) = (λ e. refl, λ e. refl)
with_state_panics j r s (err bus_full) = (λ e. cc, λ e. cc)

-- A peer can crash the gateway: the built-in actions panic exactly for "rpc" with the JSON document
-- null as content, whose map is nil when the signer is put into it.
pub perform_panics_iff :
    {net : Transport} (j : JsonText) {S : Type 0} (r : Router S) (now : ℕ) (signer : Bytes)
    (req : ApiPayload) (g : Gateway net) (s : S)
    → (perform j r now signer req g s ≡ err nil_map)
      ↔ ((req.action ≡ text "rpc") × (j.parse req.content ≡ some null))
unfolding perform ◌==◌
perform_panics_iff j r now signer req g s =
    let panics = publish_rpc_panics j signer (j.parse req.content) g in
    let kept = with_state_panics j r s (publish_rpc j signer (j.parse req.content) g) in
    (
      λ e. ground (arith, eq_iff req.action (text "rpc")),
      λ (is_rpc, is_null). rw is_rpc (kept.1 (panics.1 is_null)),
    )
