-- ===== src/Router/Ingress.antt =====
-- What router.go does with a request that comes in, and with a tunnel that connects. A QUIC connection and its
-- streams are numbers; what goes over a stream is a parameter, and so are the handlers of the Mux.
pub mod Identity
pub mod Replies
pub mod Answers
use secure_network.Prelude.{
  ℕ, Bool, true, false, ◌&&◌, not, List, [], ◌∷◌, ◌++◌, Option, none, some, Bytes, text, eqb, ◌==◌,
  if◌then◌else◌, Map,
}
use secure_network.Strings.{to_lower}
use secure_network.Http.{Header, Request, cookie, get_header, set_header}
use secure_network.Router.Interceptor.{
  Reply, Writer, Act, set_field, add_field, write_header, write, Interceptor, intercepted,
  new_interceptor,
}

-- OpenStreamSync of a connection, Write of a request to a stream, http.ReadResponse from it and Close:
-- `none` and `false` are errors.
pub record Streams (S : Type 0) : Type 0 where
  pub open_stream : ℕ → S → Option ℕ × S
  pub write_request : ℕ → Request → S → Bool × S
  pub read_response : ℕ → S → Option Reply × S
  pub close : ℕ → S → S

-- http.Error, where the header has no Content-Length, which it deletes.
pub http_error : Bytes → ℕ → List Act
http_error reason code =
    set_field (text "Content-Type") (text "text/plain; charset=utf-8")
    ∷ set_field (text "X-Content-Type-Options") (text "nosniff")
    ∷ write_header code
    ∷ write (reason ++ text "\n")
    ∷ []

-- The range over the values of a field.
abbrev pub add_values : Bytes → List Bytes → List Act → List Act
add_values name [] more = more
add_values name (v ∷ vs) more = add_field name v ∷ add_values name vs more

abbrev pub add_fields : Header → List Act → List Act
add_fields [] more = more
add_fields ((name, vs) ∷ h) more = add_values name vs (add_fields h more)

-- io.Copy of a body: nothing is written of an empty one.
abbrev pub copy_body : Bytes → List Act
copy_body [] = []
copy_body (c ∷ b) = write (c ∷ b) ∷ []

-- The reply's header, status and body are passed on.
pub copy_reply : Reply → List Act
copy_reply resp = add_fields resp.header (write_header resp.status ∷ copy_body resp.body)

abbrev pub is_web_socket : Request → Bool
is_web_socket req = to_lower (get_header (text "Upgrade") req.header) == text "websocket"

module _ {S : Type 0} (io : Streams S) (target_cookie : Bytes) (can_hijack : Bool) where
  abbrev send : List Act → Request → Interceptor → Interceptor
  send calls req i = intercepted target_cookie req calls i

  -- A reply that switches protocols is written to the hijacked connection; the stream then stays open.
  replied : Request → Interceptor → ℕ → Option Reply × S → Interceptor × Bool × S
  unfolding http_error copy_reply
  replied req i stream (none, s) =
      (send (http_error (text "Failed to read from tunnel") 502) req i, true, io.close stream s)
  replied req i stream (some resp, s) =
      if is_web_socket req && eqb resp.status 101
      then (if can_hijack
          then (record i { writer = record i.writer { switched = some resp } }, true, s)
          else (i, true, io.close stream s))
      else (send (copy_reply resp) req i, true, io.close stream s)

  requested : Request → Interceptor → ℕ → Bool × S → Interceptor × Bool × S
  unfolding replied http_error
  requested req i stream (false, s) =
      (send (http_error (text "Failed to write to tunnel") 502) req i, true, io.close stream s)
  requested req i stream (true, s) = replied req i stream (io.read_response stream s)

  on_stream : Request → Interceptor → Option ℕ × S → Interceptor × Bool × S
  unfolding requested
  on_stream req i (none, s) = (i, false, s)
  on_stream req i (some stream, s) = requested req i stream (io.write_request stream req s)

  -- proxyToTunnel: `false` where the request is left to the Mux. The copying between a stream and a
  -- hijacked connection is left out.
  unfoldable pub proxy_to_tunnel : Option ℕ → Request → Interceptor → S → Interceptor × Bool × S
  unfolding on_stream
  proxy_to_tunnel none req i s = (i, false, s)
  proxy_to_tunnel (some conn) req i s = on_stream req i (io.open_stream conn s)

-- The headers that name the subject of a valid cookie to the backend.
abbrev pub with_subject : Bytes → Bytes → Request → Request
with_subject subject token req = record req {
  header =
      set_header (text "X-Secure-Session-Id") token
        (set_header (text "X-Secure-Subject") subject req.header);
}

abbrev validated : Request → Bytes → Option Bytes → Request
validated req token none = req
validated req token (some subject) = with_subject subject token req

abbrev identified : (Bytes → Option Bytes) → Request → Option Bytes → Request
identified validate_cookie_token req none = req
identified validate_cookie_token req (some token) =
    validated req token (validate_cookie_token token)

unfoldable pub identify : Bytes → (Bytes → Option Bytes) → Request → Request
identify target_cookie validate_cookie_token req =
    identified validate_cookie_token req (cookie target_cookie req)

-- The calls that the Mux's handlers make on their writer.
abbrev pub Mux : Type 0 → Type 0
Mux S = Request → S → List Act × S

module _ {S : Type 0} (io : Streams S) (mux : Mux S) (target_cookie : Bytes)
    (validate_cookie_token : Bytes → Option Bytes) where
  abbrev pub served : Request → Interceptor × Bool × S → Interceptor × S
  served req (i, true, s) = (i, s)
  served req (i, false, s) =
      let (calls, s') = mux req s in (intercepted target_cookie req calls i, s')

  -- The handler of startDualStackIngress.
  unfoldable pub master_handler : Option ℕ → Bool → Request → Writer → S → Interceptor × S
  unfolding proxy_to_tunnel
  master_handler active can_hijack req w s =
      let req' = identify target_cookie validate_cookie_token req in
      served req' (proxy_to_tunnel io target_cookie can_hijack active req' (new_interceptor w) s)

-- The router's tunnel, and the connections that were closed.
pub record Backplane : Type 0 where
  pub active_tunnel : Option ℕ
  pub closed : List ℕ

-- The body of the loop of startQUICTunnel, on a connection that was accepted.
pub take_over : ℕ → Backplane → Backplane
take_over conn b = record {
  active_tunnel = some conn;
  closed = elim b.active_tunnel [ none ↦ b.closed | some old ↦ old ∷ b.closed ];
}

-- The loop, on the connections that were accepted.
pub start_quic_tunnel : List ℕ → Backplane → Backplane
start_quic_tunnel [] b = b
start_quic_tunnel (conn ∷ conns) b = start_quic_tunnel conns (take_over conn b)
