-- ===== src/Dbsc/Tests.antt =====
-- The theorems on dbsc.go at concrete requests.
use secure_network.Prelude.{
  ◌≡◌, ◌↔◌, refl, true, false, [], ◌∷◌, Option, none, some, Bytes, text, ◌==◌, Map, lookup, insert,
  lookup-insert_self, lookup-insert_ne, arith, inl,
}
use secure_network.Strings.{to_lower, trim_space, has_prefix}
use secure_network.Json.Sample.{sample, sample_print, sample_parse, sample-IsJsonText}
use secure_network.Json.{document, values, assign}
use secure_network.Http.{Request, Urls, cookie, get_header}
use secure_network.Dbsc.{
  SessionStore, Jwt, Bound, dbsc_include_site_allowed, read_registration_jwt,
  jwk_from_registration_jwt, load_dbsc_session, unmarshal_record, DbscSessionRecord, marshal_record,
}
use secure_network.Dbsc.Scope.{IsTwoLabels, dbsc_include_site_allowed_iff}
use secure_network.Dbsc.Endpoints.{
  check_start, refresh_endpoint, start_session, session_id, session_response, started_record,
}
use secure_network.Dbsc.Endpoints.Binding.{refresh_endpoint_iff}
use secure_network.Dbsc.Endpoints.Rebinding.{
  IsSessionStore, start_sessions, refresh_endpoint-start_session,
}

abbrev urls : Urls
urls = record { hostname = λ u. some u; path = λ u. some u; is_ip = λ h. h == text "1.1" }

-- A token's header is what stands behind its first byte; a key is its text, and a response is valid
-- when it repeats the key.
abbrev tokens : Jwt
tokens = record {
  unverified_jwk = λ t. elim t [ [] ↦ none | c ∷ s ↦ some (some s) ];
  Key = Bytes;
  parse_key = λ s. some s;
  is_valid = λ key now response. response == key;
}

abbrev store : SessionStore (Map Bytes)
store = record { get = lookup; put = λ key v ttl s. insert key v s }

store-IsSessionStore : IsSessionStore store
store-IsSessionStore = record {
  get-put = λ key v ttl s. lookup-insert_self key v s;
  get-put_ne = λ key other v ttl s ne. lookup-insert_ne key other v s ne;
}

-- The value of a cookie is its id and its subject.
abbrev router : Bound (Map Bytes)
router = record {
  target_cookie = text "sid";
  route_map = [];
  sessions = record { validate_cookie_token = λ t. some t; extract_jti = λ t. some t };
  store = some store;
}

abbrev post : Bytes → Option Bytes → Request
post response body = record {
  method = text "POST";
  host = text "a.b";
  path = text "/RefreshEndpoint";
  has_tls = true;
  header = (text "Secure-Session-Response", response ∷ []) ∷ [];
  cookies = (text "sid", text "u1") ∷ [];
  body = body;
}

dbsc_include_site_allowed_iff_example :
    (dbsc_include_site_allowed urls (text " A.b") ≡ true)
    ↔ ((false ≡ false) × IsTwoLabels (text "a.b"))
unfolding to_lower trim_space ◌==◌
dbsc_include_site_allowed_iff_example = dbsc_include_site_allowed_iff urls (text " A.b")

abbrev post_of_u2 : Request
post_of_u2 = record (post [] none) { cookies = (text "sid", text "u2") ∷ [] }

refresh_endpoint-start_session_example :
    (refresh_endpoint sample urls tokens router 9 (text "101010") (post (text "key") none) (
      start_sessions sample urls tokens router
        (post_of_u2 ∷ [])
        (start_session sample urls tokens router (post [] (some (text "Jkey"))) []).0)).status
    ≡ 200
unfolding ◌==◌ cookie lookup get_header read_registration_jwt jwk_from_registration_jwt trim_space
    has_prefix load_dbsc_session check_start session_id session_response started_record insert
refresh_endpoint-start_session_example =
    refresh_endpoint-start_session sample urls tokens router sample-IsJsonText store refl
      store-IsSessionStore (post [] (some (text "Jkey"))) [] refl (ground arith) (post_of_u2 ∷ [])
      (λ t u i passed same. ground arith, tt) (post (text "key") none) 9 (text "101010") refl refl
      (inl refl)

abbrev bound_to_key : DbscSessionRecord
bound_to_key = record { username = text "u1"; dbsc_pub_key = text "key" }

abbrev sessions_of_u1 : Map Bytes
sessions_of_u1 = (text "data:session:u1", marshal_record sample bound_to_key) ∷ []

refresh_endpoint_iff_example :
    (refresh_endpoint sample urls tokens router 9
      (text "101010")
      (post (text "key") none)
      sessions_of_u1).status
    ≡ 200
unfolding ◌==◌ cookie lookup get_header session_id session_response load_dbsc_session marshal_record
    sample_print sample_parse values assign to_lower document unmarshal_record
refresh_endpoint_iff_example =
    (refresh_endpoint_iff sample urls tokens router 9 (text "101010") (post (text "key") none)
        sessions_of_u1).1
      (record {
        token = text "u1";
        jti = text "u1";
        rec = bound_to_key;
        key = text "key";
        is_post = refl;
        has_cookie = refl;
        token_full = refl;
        names = refl;
        same_id = inl refl;
        loads = refl;
        is_bound = refl;
        responds = refl;
        parses = refl;
        is_valid = refl;
      })
