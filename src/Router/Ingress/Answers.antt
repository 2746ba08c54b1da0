-- ===== src/Router/Ingress/Answers.antt =====
-- What a client is answered when the tunnel is up, and which tunnel is up.
use secure_network.Prelude.{
  text, lookup, sym, subst, ℕ, ◌≡◌, refl, ap, Bool, true, false, ◌&&◌, List, [], ◌∷◌, ◌++◌, Option,
  none, some, Bytes, eqb, if◌then◌else◌,
}
use secure_network.Http.{Request, header_values}
use secure_network.Router.Interceptor.{
  Reply, Writer, Interceptor, intercepted, new_interceptor, finish_response,
}
use secure_network.Router.Ingress.{
  Streams, Mux, Backplane, is_web_socket, identify, proxy_to_tunnel, on_stream, requested, replied,
  master_handler, served, take_over, start_quic_tunnel,
}
use secure_network.Router.Ingress.Replies.{
  tunnel_answer, tunnel_field, IsReply, reply_of, IsAnswer, reply_of-IsAnswer,
}

-- A reply that makes a web socket's connection switch.
abbrev pub switches : Request → Option Reply → Bool
switches req none = false
switches req (some resp) = is_web_socket req && eqb resp.status 101

module _ {S : Type 0} (io : Streams S) (target_cookie : Bytes) (can_hijack : Bool) (req : Request)
    (i : Interceptor) (stream : ℕ) where
  replied-reply_of :
      (o : Option Reply) (s : S)
      → switches req o ≡ false
      → replied io target_cookie can_hijack req i stream (o, s)
        ≡ (intercepted target_cookie req (reply_of true o) i, true, io.close stream s)
  unfolding replied
  replied-reply_of none s plain = refl
  replied-reply_of (some resp) s plain = rw plain refl

  abbrev pub read_from : Bool → S → Option Reply × S
  read_from written s = if written then io.read_response stream s else (none, s)

  requested-reply_of :
      (written : Bool) (s : S)
      → switches req (read_from written s).0 ≡ false
      → requested io target_cookie can_hijack req i stream (written, s) ≡ (
        intercepted target_cookie req (reply_of written (read_from written s).0) i,
        true,
        io.close stream (read_from written s).1,
      )
  unfolding requested
  requested-reply_of false s plain = refl
  requested-reply_of true s plain =
      replied-reply_of (io.read_response stream s).0 (io.read_response stream s).1 plain

module _ {S : Type 0} (io : Streams S) (mux : Mux S) (target_cookie : Bytes)
    (validate_cookie_token : Bytes → Option Bytes) (can_hijack : Bool) (req : Request) (w : Writer)
    (s s1 s2 : S) (conn stream : ℕ) (written : Bool) (none_sent : w.status ≡ none)
    (opens : io.open_stream conn s ≡ (some stream, s1))
    (writes : io.write_request stream (identify target_cookie validate_cookie_token req) s1
      ≡ (written, s2)) where
  abbrev pub passed : Request
  passed = identify target_cookie validate_cookie_token req

  abbrev pub received : Option Reply × S
  received = if written then io.read_response stream s2 else (none, s2)

  abbrev pub response : Interceptor × S
  response =
      master_handler io mux target_cookie validate_cookie_token (some conn) can_hijack req w s

  master_handler-reply_of :
      switches passed received.0 ≡ false
      → response ≡ (
        intercepted target_cookie passed (reply_of written received.0) (new_interceptor w),
        io.close stream received.1,
      )
  unfolding master_handler proxy_to_tunnel on_stream
  master_handler-reply_of plain = rw opens (
      rw writes (
        ap (served io mux target_cookie validate_cookie_token passed) (
          requested-reply_of io target_cookie can_hijack passed (new_interceptor w) stream written
            s2 plain)))

  -- While a tunnel opens a stream, and unless the reply switches a web socket to another protocol, the
  -- client's answer comes from the tunnel and the Mux is not asked. The writer has sent nothing and has no
  -- Content-Length in its header, and a reply's status is from 100 to 999. Then the status is that of the
  -- reply, or 200 where that is informational (1xx but 101), or 502 where the request could not be written
  -- or no reply was read. The body is that of the reply, if the status allows one, or the reason of the
  -- error. Each field of the header that is sent has the writer's values followed by the reply's, or for
  -- an error Content-Type and X-Content-Type-Options have its values and the others the writer's; but
  -- Secure-Session-Registration has its one value if the request has the target cookie. The stream is
  -- closed.
  pub master_handler-tunnel_answer :
      switches passed received.0 ≡ false
      → IsReply received.0
      → lookup (text "Content-Length") w.header ≡ none
      → let (code, body) = tunnel_answer written received.0 in
        IsAnswer target_cookie passed w code body
          (λ name. tunnel_field written received.0 name (header_values name w.header))
          (finish_response response.0.writer)
        × (response.1 ≡ io.close stream received.1)
  master_handler-tunnel_answer plain distinct no_length =
      let e = master_handler-reply_of plain in
      (
        subst
            (λ (r : Interceptor × S).
              let (code, body) = tunnel_answer written received.0 in
              IsAnswer target_cookie passed w code body
                (λ name. tunnel_field written received.0 name (header_values name w.header))
                (finish_response r.0.writer))
            (sym e)
            (reply_of-IsAnswer target_cookie passed w none_sent written received.0 distinct),
        ap (λ r. r.1) e,
      )

abbrev pub reverse_onto : List ℕ → List ℕ → List ℕ
reverse_onto [] ys = ys
reverse_onto (x ∷ xs) ys = reverse_onto xs (x ∷ ys)

-- The last connection that was accepted is the tunnel, whoever made it, and every earlier one, with the one
-- that was there before, was closed.
pub start_quic_tunnel-take_over :
    (conn : ℕ) (conns : List ℕ) (b : Backplane)
    → let b' = start_quic_tunnel (conns ++ (conn ∷ [])) b in
      (b'.active_tunnel ≡ some conn)
      × (b'.closed
          ≡ reverse_onto conns
              (elim b.active_tunnel [ none ↦ b.closed | some old ↦ old ∷ b.closed ]))
unfolding start_quic_tunnel take_over
start_quic_tunnel-take_over conn [] b = (refl, refl)
start_quic_tunnel-take_over conn (c ∷ conns) b =
    start_quic_tunnel-take_over conn conns (take_over c b)
