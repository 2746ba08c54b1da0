-- ===== src/Dbsc/Endpoints.antt =====
-- handleStartSession and handleRefreshEndpoint of dbsc.go.
pub mod Binding
pub mod Rebinding
use secure_network.Prelude.{
  ℕ, ◌*◌, Bool, true, false, not, ◌&&◌, ◌||◌, List, [], ◌∷◌, ◌++◌, Option, none, some, Bytes, text,
  ◌==◌, if◌then◌else◌, Map, Result, ok, err, ◌>>=◌, ◌>>◌,
}
use secure_network.Strings.{is_empty, to_lower}
use secure_network.Json.{JsonText}
use secure_network.Http.{
  Request, Response, Header, SetCookie, Urls, get_header, set_header, cookie, or_text,
}
use secure_network.Router.Domain.{get_dbsc_domain}
use secure_network.Dbsc.{
  DbscSessionRecord, Jwt, Bound, request_origin, dbsc_include_site_allowed, read_registration_jwt,
  jwk_from_registration_jwt, load_dbsc_session, save_dbsc_session,
}

-- The document that StartSession answers with.
pub record SessionConfig : Type 0 where
  pub session_identifier : Bytes
  pub refresh_url : Bytes
  pub origin : Bytes
  pub include_site : Bool
  pub cookie_name : Bytes
  pub attributes : Bytes

pub data Body : Type 0 where
  message : Bytes → Body
  config : SessionConfig → Body

-- http.Error
abbrev pub failed : ℕ → Bytes → Response Body
failed status reason = record {
  status = status;
  header =
      (text "Content-Type", text "text/plain; charset=utf-8" ∷ [])
      ∷ (text "X-Content-Type-Options", text "nosniff" ∷ [])
      ∷ [];
  cookies = [];
  body = message (reason ++ text "\n");
}

abbrev pub require : Bool → Response Body → Result (Response Body) (Unit {0})
require true r = ok tt
require false r = err r

abbrev pub some_or : {A : Type 0} → Option A → Response Body → Result (Response Body) A
some_or none r = err r
some_or (some a) r = ok a

abbrev pub non_empty : Option Bytes → Response Body → Result (Response Body) Bytes
non_empty none r = err r
non_empty (some v) r = if is_empty v then err r else ok v

-- The cookie that both endpoints set again, for ten minutes.
pub short_cookie : Bytes → Bytes → Bytes → SetCookie
short_cookie name value domain = record {
  name = name;
  value = value;
  max_age = 600;
  domain = domain;
  path = text "/";
  secure = true;
  http_only = true;
  same_site_lax = true;
  suffix = [];
}

-- The username of a session that is there stays; its key does not.
unfoldable pub started_record : Bytes → Bytes → Option DbscSessionRecord → DbscSessionRecord
started_record subject jwk none = record { username = subject; dbsc_pub_key = jwk }
started_record subject jwk (some existing) = record {
  username = or_text existing.username subject;
  dbsc_pub_key = jwk;
}

abbrev lower_host : Option Bytes → Bytes
lower_host none = []
lower_host (some h) = to_lower h

-- The cookie's domain: on this host alone, unless the session may include the site.
pub scope_domain : Bool → Bytes → Bytes → Bytes
scope_domain include_site host domain =
    if not include_site && not (is_empty host) then host else or_text domain host

pub cookie_attributes : Bytes → Bytes
cookie_attributes domain =
    let attributes = text "Secure; HttpOnly; SameSite=Lax; Path=/" in
    if is_empty domain then attributes else text "Domain=" ++ (domain ++ (text "; " ++ attributes))

-- A record with a key.
abbrev bound_key : Option DbscSessionRecord → Option Bytes
bound_key none = none
bound_key (some rec) = if is_empty rec.dbsc_pub_key then none else some rec.dbsc_pub_key

-- The answer that asks for a response; `stamp` is the time of day in six digits.
unfoldable pub challenge : Bytes → Bytes → Response Body
challenge jti stamp =
    let r = failed 403 (text "Challenge required") in
    record r {
      header =
          set_header (text "Secure-Session-Challenge")
            (text "\"" ++ (jti ++ (text "-" ++ (stamp ++ text "\"")))) r.header;
    }

unfoldable pub session_id : Request → Bytes
session_id req =
    or_text (get_header (text "Sec-Secure-Session-Id") req.header)
      (get_header (text "Sec-Session-Id") req.header)

unfoldable pub session_response : Request → Bytes
session_response req =
    or_text (get_header (text "Secure-Session-Response") req.header)
      (get_header (text "Sec-Session-Response") req.header)

module _ (j : JsonText) (urls : Urls) (tokens : Jwt) {S : Type 0} (b : Bound S) where
  -- The checks of handleStartSession: the cookie's value, its subject and its id.
  unfoldable pub check_start : Request → Result (Response Body) (Bytes × Bytes × Bytes)
  check_start req = do
    require (req.method == text "POST") (failed 405 (text "Method not allowed"))
    token ← non_empty (cookie b.target_cookie req) (failed 401 (text "No active session"))
    subject ← some_or (b.sessions.validate_cookie_token token) (failed 401 (text "Invalid session"))
    jti ← some_or (b.sessions.extract_jti token) (failed 401 (text "Malformed session"))
    ok (token, subject, jti)

  unfoldable pub started_response : Request → Bytes → Bytes → Response Body
  started_response req token jti =
      let origin = request_origin req in
      let host = lower_host (urls.hostname origin) in
      let include_site = dbsc_include_site_allowed urls host in
      let domain = scope_domain include_site host (get_dbsc_domain urls b.route_map req) in
      record {
        status = 200;
        header = set_header (text "Content-Type") (text "application/json") [];
        cookies = short_cookie b.target_cookie token domain ∷ [];
        body = config (record {
          session_identifier = jti;
          refresh_url = text "/RefreshEndpoint";
          origin = origin;
          include_site = include_site;
          cookie_name = b.target_cookie;
          attributes = cookie_attributes domain;
        });
      }

  abbrev start_checked :
      Request → S → Result (Response Body) (Bytes × Bytes × Bytes) → S × Response Body
  start_checked req s (err r) = (s, r)
  start_checked req s (ok (token, subject, jti)) =
      let jwk = jwk_from_registration_jwt tokens (read_registration_jwt j req.body) in
      let rec = started_record subject jwk (load_dbsc_session j b.store jti s) in
      (save_dbsc_session j b.store jti rec (24 * 3600) s, started_response req token jti)

  -- handleStartSession
  unfoldable pub start_session : Request → S → S × Response Body
  start_session req s = start_checked req s (check_start req)

  -- The checks of handleRefreshEndpoint, in their order: the cookie's value.
  unfoldable pub check_refresh : ℕ → Bytes → Request → S → Result (Response Body) Bytes
  unfolding challenge
  check_refresh now stamp req s = do
    require (req.method == text "POST") (failed 405 (text "Method not allowed"))
    token ← non_empty (cookie b.target_cookie req) (failed 401 (text "Session missing"))
    jti ← some_or (b.sessions.extract_jti token) (failed 401 (text "Invalid session token"))
    require (is_empty (session_id req) || session_id req == jti)
        (failed 401 (text "Session id mismatch"))
    bound ←
        some_or (bound_key (load_dbsc_session j b.store jti s))
          (failed 400 (text "Session not DBSC-bound"))
    require (not (is_empty (session_response req))) (challenge jti stamp)
    key ← some_or (tokens.parse_key bound) (failed 500 (text "Invalid stored DBSC key"))
    require (tokens.is_valid key now (session_response req))
        (failed 403 (text "Invalid DBSC response"))
    ok token

  unfoldable pub refreshed_response : Request → Bytes → Response Body
  refreshed_response req token =
      let refreshed = short_cookie b.target_cookie token (get_dbsc_domain urls b.route_map req) in
      record {
        status = 200;
        header = [];
        cookies = refreshed ∷ record refreshed { suffix = text "; Sec-Provided-Session-Key" } ∷ [];
        body = message (text "{\"status\":\"refreshed\"}");
      }

  abbrev refresh_checked : Request → Result (Response Body) Bytes → Response Body
  refresh_checked req (err r) = r
  refresh_checked req (ok token) = refreshed_response req token

  -- handleRefreshEndpoint, which changes no state.
  unfoldable pub refresh_endpoint : ℕ → Bytes → Request → S → Response Body
  refresh_endpoint now stamp req s = refresh_checked req (check_refresh now stamp req s)
