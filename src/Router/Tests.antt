-- ===== src/Router/Tests.antt =====
-- The theorems on router.go at concrete requests.
use secure_network.Prelude.{
  arith, ℕ, ◌≡◌, refl, true, false, List, [], ◌∷◌, Option, none, some, Bytes, text, ◌==◌, lookup,
  insert,
}
use secure_network.Strings.{to_lower}
use secure_network.Http.{Request, cookie, get_header, set_header, header_values}
use secure_network.Prelude.{◌↔◌}
use secure_network.Json.Sample.{sample}
use secure_network.Http.{Urls}
use secure_network.Dbsc.{DbscSessionRecord, Jwt, Bound, marshal_record}
use secure_network.Dbsc.Endpoints.Binding.{Refreshes}
use secure_network.Router.Kernel.{Printing, boot_mux, master_handler-refresh_endpoint_iff}
use secure_network.Router.Interceptor.{
  Act, set_field, write_header, write, new_writer, new_interceptor, intercepted, acts, Same,
  intercepted-acts, AreFinal, IsFinalStatus, is_informational, finish_response, Reply,
}
use secure_network.Router.Ingress.{Streams, Mux, Backplane, identify, master_handler}
use secure_network.Router.Ingress.Identity.{sent_names, identify-told, identify_forged, KeepsOthers}
use secure_network.Router.Ingress.Replies.{IsAnswer}
use secure_network.Router.Ingress.Answers.{master_handler-tunnel_answer}

abbrev request : Request
request = record {
  method = text "GET";
  host = text "a.b";
  path = text "/";
  has_tls = true;
  header = [];
  cookies = (text "sid", text "u1") ∷ [];
  body = none;
}

abbrev validate : Bytes → Option Bytes
validate token = some (text "ann")

abbrev page : List Act
page = set_field (text "A") (text "1") ∷ write (text "hi") ∷ write_header 404 ∷ []

abbrev reply : Reply
reply = record {
  status = 201;
  header = (text "A", text "1" ∷ text "2" ∷ []) ∷ [];
  body = text "ok";
}

-- The state counts the calls; the reply is always the same.
abbrev io : Streams ℕ
io = record {
  open_stream = λ conn s. (some 1, s);
  write_request = λ stream req s. (true, s);
  read_response = λ stream s. (some reply, s);
  close = λ stream s. s;
}

abbrev mux : Mux ℕ
mux req s = (page, s)

intercepted-acts_example :
    ((calls : List Act)
      → AreFinal calls
      → Same
          (text "sid")
          request
          (intercepted (text "sid") request calls (new_interceptor new_writer)).writer
          (acts calls new_writer))
    × ((early code : ℕ)
        → is_informational early ≡ true
        → IsFinalStatus code
        → let calls = write_header early ∷ write_header code ∷ [] in
          let through =
            (intercepted (text "sid") request calls (new_interceptor new_writer)).writer in
          ((finish_response through).status ≡ some 200)
          × ((finish_response (acts calls new_writer)).status ≡ some code))
intercepted-acts_example = intercepted-acts (text "sid") request new_writer refl

page-Same :
    Same
      (text "sid")
      request
      (intercepted (text "sid") request page (new_interceptor new_writer)).writer
      (acts page new_writer)
page-Same = intercepted-acts_example.0 page (tt, (tt, ((omega arith, omega arith, refl), tt)))

-- A 404 behind early hints becomes 200.
hints_swallow :
    (finish_response
      (intercepted
        (text "sid")
        request
        (write_header 103 ∷ write_header 404 ∷ [])
        (new_interceptor new_writer)).writer).status
    ≡ some 200
hints_swallow = (intercepted-acts_example.1 103 404 refl (omega arith, omega arith, refl)).0

identify-told_example :
    (sent_names (identify (text "sid") validate request) ≡ (text "ann", text "u1"))
    × KeepsOthers (identify (text "sid") validate request) request
unfolding cookie lookup ◌==◌
identify-told_example = identify-told (text "sid") validate request

identify_forged_example :
    (forged : Request) × (forged.cookies ≡ [])
    × (sent_names (identify (text "sid") validate forged)
        ≡ sent_names (identify (text "sid") validate request))
unfolding cookie lookup ◌==◌
identify_forged_example =
    identify_forged (text "sid") validate request (text "u1") (text "ann") refl refl

master_handler-tunnel_answer_example :
    let r = master_handler io mux (text "sid") validate (some 5) false request new_writer 0 in
    IsAnswer
      (text "sid")
      (identify (text "sid") validate request)
      new_writer
      201
      (text "ok")
      (λ name. header_values name reply.header)
      (finish_response r.0.writer)
    × (r.1 ≡ 0)
unfolding get_header lookup cookie set_header insert identify ◌==◌ to_lower
master_handler-tunnel_answer_example =
    master_handler-tunnel_answer io mux (text "sid") validate false request new_writer 0 0 0 5 1
      true refl refl refl refl (omega arith, omega arith, (refl, tt)) refl

abbrev backplane : Backplane
backplane = record { active_tunnel = some 1; closed = [] }

abbrev urls : Urls
urls = record { hostname = λ u. some u; path = λ u. some u; is_ip = λ h. false }

-- A key is its text, and a response is valid when it repeats the key.
abbrev tokens : Jwt
tokens = record {
  unverified_jwk = λ t. some none;
  Key = Bytes;
  parse_key = λ s. some s;
  is_valid = λ key now response. response == key;
}

-- Every session is bound to "key".
abbrev bound_to_key : DbscSessionRecord
bound_to_key = record { username = text "u1"; dbsc_pub_key = text "key" }

abbrev router : Bound ℕ
router = record {
  target_cookie = text "sid";
  route_map = [];
  sessions = record { validate_cookie_token = validate; extract_jti = λ t. some t };
  store =
      some (record {
        get = λ key s. some (marshal_record sample bound_to_key);
        put = λ key v ttl s. s;
      });
}

abbrev printing : Printing
printing = record { print_cookie = λ c. c.value; print_body = λ body. [] }

abbrev refresh : Request
refresh = record request {
  method = text "POST";
  path = text "/RefreshEndpoint";
  header = (text "Secure-Session-Response", text "key" ∷ []) ∷ [];
}

abbrev passed_refresh : Request
passed_refresh = identify (text "sid") validate refresh

master_handler-refresh_endpoint_iff_example :
    let r =
      master_handler io
        (boot_mux sample urls tokens router printing 9 (text "101010") none)
        (text "sid")
        validate
        none
        false
        refresh
        new_writer
        0 in
    ((r.0.writer.status ≡ some 200)
      ↔ Refreshes sample urls tokens router 9 (text "101010") passed_refresh 0)
    × (r.1 ≡ 0)
master_handler-refresh_endpoint_iff_example =
    master_handler-refresh_endpoint_iff sample urls tokens router printing 9 (text "101010") io none
      false refresh new_writer 0 refl refl
