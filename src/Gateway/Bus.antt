-- ===== src/Gateway/Bus.antt =====
-- What routeToAPI does to LocalBus: one action adds at most one event, and blocks only on a full bus.
use secure_network.Prelude.{
  ℕ, suc, ◌≤◌, ◌≡◌, refl, Bool, true, false, Option, none, some, arith, Bytes, text, drop, length,
  [], ◌∷◌, length-append, Result, ok, err, lookup, Option-cases, inl, inr, ap, subst, Bool-cases,
  ltb,
}
use secure_network.Strings.{has_prefix}
use secure_network.Json.{Json, null, bool, int, real, str, arr, obj, JsonText, members_fit}
use secure_network.Wire.{ApiPayload, unmarshal_api_payload, unmarshal_host_id}
use secure_network.Platform.{Transport}
use secure_network.Gateway.{
  Router, Gateway, Halt, nil_map, bus_full, bus_capacity, publish_rpc, with_state, perform, collect,
  event, dispatch_protocol, unless_sent, allowed, registered, route, route_to_api, forward_to_host,
  forward_on,
}

-- From a bus of `n` events.
abbrev pub Publishes : {net : Transport} {S : Type 0} → ℕ → Result Halt (Gateway net × S) → Type 0
Publishes n (err nil_map) = Unit
Publishes n (err bus_full) = bus_capacity ≤ n
Publishes n (ok (g, s)) = length g.bus ≤ suc n

module _ {net : Transport} (j : JsonText) {S : Type 0} (r : Router S) where
  publish_rpc-Publishes :
      (signer : Bytes) (v : Option Json) (g : Gateway net) (s : S)
      → Publishes (length g.bus) (with_state j r s (publish_rpc j signer v g))
  unfolding publish_rpc
  publish_rpc-Publishes signer none g s = omega arith
  publish_rpc-Publishes signer (some null) g s = tt
  publish_rpc-Publishes signer (some (bool b)) g s = omega arith
  publish_rpc-Publishes signer (some (int b n)) g s = omega arith
  publish_rpc-Publishes signer (some (real t)) g s = omega arith
  publish_rpc-Publishes signer (some (str t)) g s = omega arith
  publish_rpc-Publishes signer (some (arr es)) g s = omega arith
  publish_rpc-Publishes signer (some (obj ms)) g s = elim (Bool-cases (members_fit j ms)) [
    | inr no_float ↦ rw (publish_rpc, no_float) (omega arith)
    | inl fits ↦ elim (Bool-cases (ltb (length g.bus) bus_capacity)) [
      | inl room ↦
          rw (publish_rpc, fits)
            (rw room (omega (arith, length-append g.bus (event signer (collect [] ms) ∷ []))))
      | inr full ↦ rw (publish_rpc, fits) (rw full (ground (arith, full)))
    ]
  ]

  perform-Publishes :
      (now : ℕ) (signer : Bytes) (req : ApiPayload) (g : Gateway net) (s : S)
      → Publishes (length g.bus) (perform j r now signer req g s)
  unfolding perform
  perform-Publishes now signer req g s =
      let rpc = publish_rpc-Publishes signer (j.parse req.content) g s in ground arith

  dispatch_protocol-Publishes :
      (now : ℕ) (signer : Bytes) (req : ApiPayload) (g : Gateway net) (s : S)
      → Publishes (length g.bus) (dispatch_protocol j r now signer req g s)
  unfolding dispatch_protocol
  dispatch_protocol-Publishes now signer req g s =
      elim (Option-cases (lookup req.action r.protocol_handlers)) [
        | inl missing ↦
            rw (missing, dispatch_protocol, Publishes) (perform-Publishes now signer req g s)
        | inr (handler, found) ↦ rw (found, dispatch_protocol, Publishes) (omega arith)
      ]

  forward_on-bus :
      (n : ℕ) (c : Option Bytes × net.Cipher) (g : Gateway net) → (forward_on n c g).0.bus ≡ g.bus
  unfolding forward_on
  forward_on-bus n (none, cs) g = refl
  forward_on-bus n (some enc, cs) g = refl

  forward_to_host-bus :
      (host payload : Bytes) (g : Gateway net) → (forward_to_host host payload g).0.bus ≡ g.bus
  unfolding forward_to_host
  forward_to_host-bus host payload g = elim (Option-cases (lookup host g.host_sessions)) [
    | inl missing ↦ rw (missing, forward_to_host) refl
    | inr (peer, found) ↦ rw (found, forward_to_host) (forward_on-bus peer.link _ g)
  ]

  unless_sent-Publishes :
      (n now : ℕ) (signer : Bytes) (req : ApiPayload) (sent : Gateway net × Bool) (s : S)
      → length sent.0.bus ≡ n
      → Publishes n (unless_sent j r now signer req sent s)
  unless_sent-Publishes n now signer req (g, true) s same = omega arith
  unless_sent-Publishes n now signer req (g, false) s same =
      subst (λ n. Publishes n (dispatch_protocol j r now signer req g s)) same
        (dispatch_protocol-Publishes now signer req g s)

  allowed-Publishes :
      (now : ℕ) (signer payload : Bytes) (req : ApiPayload) (g : Gateway net) (s : S)
      → Publishes (length g.bus) (allowed j r now signer payload req g s)
  unfolding allowed
  allowed-Publishes now signer payload req g s =
      let host = drop 5 req.target in
      let forwards =
        unless_sent-Publishes (length g.bus) now signer req (forward_to_host host payload g) s
          (ap length (forward_to_host-bus host payload g)) in
      elim (Bool-cases (has_prefix req.target (text "host:"))) [
        | inl to_host ↦ rw to_host forwards
        | inr plain ↦ rw plain (dispatch_protocol-Publishes now signer req g s)
      ]

  registered-bus :
      (link : ℕ) (signer : Bytes) (host : Option Bytes) (g : Gateway net)
      → (registered link signer host g).bus ≡ g.bus
  unfolding registered
  registered-bus link signer none g = refl
  registered-bus link signer (some host) g = ground arith

  pub route_to_api-Publishes :
      (now link : ℕ) (signer payload : Bytes) (g : Gateway net) (s : S)
      → Publishes (length g.bus) (route_to_api j r now link signer payload g s)
  unfolding route_to_api route
  route_to_api-Publishes now link signer payload g s =
      elim (Option-cases (unmarshal_api_payload j payload)) [
        | inl bad ↦ rw (bad, route_to_api, Publishes) (omega arith)
        | inr (req, parsed) ↦
            let same = registered-bus link signer (unmarshal_host_id j req.content) g in
            let allows = allowed-Publishes now signer payload req g s in
            rw (parsed, route_to_api, Publishes) (ground arith)
      ]
