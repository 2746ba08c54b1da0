-- ===== src/Router/Kernel.antt =====
-- The modules of a router and the routes that Boot sets up (router.go), with the endpoints of dbsc.go behind the
-- ingress. A module's Start runs on its own. A path is clean, so that the Mux does not redirect it.
use secure_network.Prelude.{
  ℕ, ◌≤◌, ◌≡◌, ◌↔◌, refl, ap, sym, ◌∙◌, Bool, List, [], ◌∷◌, Option, none, some, Bytes, text,
  is_some, ◌==◌, if◌then◌else◌, arith, Map, insert, Result, ok, err,
}
use secure_network.Json.{JsonText}
use secure_network.Http.{Header, Request, Response, SetCookie, Urls, add_header}
use secure_network.Dbsc.{Jwt, Bound}
use secure_network.Dbsc.Endpoints.{Body, start_session, refresh_endpoint}
use secure_network.Dbsc.Endpoints.Binding.{Refreshes, refresh_endpoint_iff, refresh_endpoint-status}
use secure_network.Router.Interceptor.{
  Writer, Act, add_field, write_header, write, Interceptor, intercept_header, intercept_write,
  intercepted, new_interceptor,
}
use secure_network.Router.Ingress.{
  Streams, Mux, identify, http_error, add_fields, proxy_to_tunnel, master_handler,
}
use secure_network.Router.Ingress.Identity.{identify-path}
use secure_network.Router.Ingress.Replies.{add_fields-intercepted, with_header}

-- Init of a module: the state, and its error.
pub record Module (S : Type 0) : Type 0 where
  pub name : Bytes
  pub init : S → S × Option Bytes

unfoldable pub attach : {S : Type 0} → Module S → Map (Module S) → Map (Module S)
attach m modules = insert m.name m modules

-- Boot's range over the modules, in the order that it has: an error ends the program, with the module's name.
unfoldable pub init_modules : {S : Type 0} → Map (Module S) → S → Result Bytes S
init_modules [] s = ok s
init_modules ((name, m) ∷ modules) s =
    let (s', e) = m.init s in
    let rest = init_modules modules s' in if is_some e then err name else rest

some_inj : {a b : ℕ} → some a ≡ some b → a ≡ b
some_inj e = ground arith

-- How a response's cookies and its body are written out.
pub record Printing : Type 0 where
  pub print_cookie : SetCookie → Bytes
  pub print_body : Body → Bytes

abbrev add_cookies : Printing → List SetCookie → List Act → List Act
add_cookies out [] more = more
add_cookies out (c ∷ cs) more =
    add_field (text "Set-Cookie") (out.print_cookie c) ∷ add_cookies out cs more

-- The calls that write a response.
pub respond : Printing → Response Body → List Act
respond out r =
    add_fields r.header
      (add_cookies out r.cookies (write_header r.status ∷ write (out.print_body r.body) ∷ []))

module _ (j : JsonText) (urls : Urls) (tokens : Jwt) {S : Type 0} (b : Bound S) (out : Printing)
    (now : ℕ) (stamp : Bytes) where
  abbrev wrote : S × Response Body → List Act × S
  wrote (s, r) = (respond out r, s)

  abbrev or_not_found : Option (Mux S) → Mux S
  or_not_found none req s = (http_error (text "404 page not found") 404, s)
  or_not_found (some gui) req s = gui req s

  -- The Mux after setupDBSCRoutes, with GUIKit's under "/", if there is one.
  unfoldable pub boot_mux : Option (Mux S) → Mux S
  boot_mux gui req s =
      if req.path == text "/StartSession"
      then wrote (start_session j urls tokens b req s)
      else if req.path == text "/RefreshEndpoint"
      then (respond out (refresh_endpoint j urls tokens b now stamp req s), s)
      else or_not_found gui req s

  module _ (target_cookie : Bytes) (req : Request) where
    add_cookies-intercepted :
        (cs : List SetCookie) (more : List Act) (i : Interceptor)
        → (h : Header) × (intercepted target_cookie req (add_cookies out cs more) i
            ≡ intercepted target_cookie req more (with_header h i))
    unfolding intercepted
    add_cookies-intercepted [] more i = (i.writer.header, refl)
    add_cookies-intercepted (c ∷ cs) more i =
        add_cookies-intercepted cs more
          (with_header (add_header (text "Set-Cookie") (out.print_cookie c) i.writer.header) i)

    written-status :
        (h : Header) (w : Writer) (code : ℕ) (body : Bytes)
        → w.status ≡ none
        → 200 ≤ code
        → (intercepted target_cookie req
            (write_header code ∷ write body ∷ [])
            (with_header h (new_interceptor w))).writer.status
          ≡ some code
    unfolding intercepted intercept_header intercept_write
    written-status h w code body none_sent final = ground arith

    respond-status :
        (w : Writer) (r : Response Body)
        → w.status ≡ none
        → 200 ≤ r.status
        → (intercepted target_cookie req (respond out r) (new_interceptor w)).writer.status
          ≡ some r.status
    unfolding respond
    respond-status w r none_sent final =
        let written = write_header r.status ∷ write (out.print_body r.body) ∷ [] in
        let (h, e, fields) =
          add_fields-intercepted target_cookie req r.header (add_cookies out r.cookies written)
            (new_interceptor w) in
        let (h', e') =
          add_cookies-intercepted r.cookies written (with_header h (new_interceptor w)) in
        ap (λ i. i.writer.status) (e ∙ e')
        ∙ written-status h' w r.status (out.print_body r.body) none_sent final

  module _ (io : Streams S) (gui : Option (Mux S)) (can_hijack : Bool) (req : Request) (w : Writer)
      (s : S) where
    abbrev pub passed_on : Request
    passed_on = identify b.target_cookie b.sessions.validate_cookie_token req

    abbrev pub served_by : Interceptor × S
    served_by =
        master_handler io (boot_mux gui) b.target_cookie b.sessions.validate_cookie_token none
          can_hijack req w s

    boot_mux-refresh_endpoint :
        (r : Request)
        → r.path ≡ text "/RefreshEndpoint"
        → boot_mux gui r s ≡ (respond out (refresh_endpoint j urls tokens b now stamp r s), s)
    unfolding boot_mux ◌==◌
    boot_mux-refresh_endpoint r here = rw here refl

    -- The ingress of a router without a tunnel refreshes a session, that is, it answers a request for
    -- /RefreshEndpoint with 200, exactly under the conditions of the endpoint on the request that it passes
    -- on, and no state changes. `w` has sent nothing yet.
    pub master_handler-refresh_endpoint_iff :
        w.status ≡ none
        → req.path ≡ text "/RefreshEndpoint"
        → ((served_by.0.writer.status ≡ some 200) ↔ Refreshes j urls tokens b now stamp passed_on s)
          × (served_by.1 ≡ s)
    unfolding master_handler proxy_to_tunnel
    master_handler-refresh_endpoint_iff none_sent here =
        let response = refresh_endpoint j urls tokens b now stamp passed_on s in
        let path = identify-path b.target_cookie b.sessions.validate_cookie_token req in
        let routed = boot_mux-refresh_endpoint passed_on (path ∙ here) in
        let has : served_by.0.writer.status ≡ some response.status =
          ap
            (λ (r : List Act × S).
              (intercepted b.target_cookie passed_on r.0 (new_interceptor w)).writer.status)
            routed
          ∙ respond-status b.target_cookie passed_on w response none_sent
              (refresh_endpoint-status j urls tokens b now stamp passed_on s) in
        let iff = refresh_endpoint_iff j urls tokens b now stamp passed_on s in
        (
          (λ e. iff.0 (some_inj (sym has ∙ e)), λ h. has ∙ ap some (iff.1 h)),
          ap (λ (r : List Act × S). r.1) routed,
        )
