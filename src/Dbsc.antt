-- ===== src/Dbsc.antt =====
-- dbsc.go: device-bound sessions. The session manager, the JWT and JWK packages and the store are
-- parameters. Both handlers write their response once; its body is a text or the session's
-- configuration before it is encoded. A time to live is in seconds.
pub mod Endpoints
pub mod Scope
mod Tests
use secure_network.Prelude.{
  ℕ, ◌*◌, Bool, true, false, not, ◌&&◌, ◌||◌, List, [], ◌∷◌, ◌++◌, Option, none, some, Bytes, text,
  ◌==◌, if◌then◌else◌, Map, lookup, Result, ok, err, ◌>>=◌, ◌>>◌,
}
use secure_network.Strings.{is_empty, to_lower, trim_space, has_prefix, split}
use secure_network.Json.{
  JsonText, Members, end, member, str, obj, document, field, set_string, omit_empty, values, assign,
}
use secure_network.Http.{
  Request, Response, Header, SetCookie, Urls, get_header, set_header, cookie, without_port, or_text,
}
use secure_network.Router.Domain.{get_dbsc_domain}

pub record DbscSessionRecord : Type 0 where
  pub username : Bytes
  pub dbsc_pub_key : Bytes

module _ (j : JsonText) where
  abbrev pub record_members : DbscSessionRecord → Members
  record_members r =
      member (text "username") (str r.username)
        (omit_empty (text "dbsc_pub_key") r.dbsc_pub_key end)

  unfoldable pub marshal_record : DbscSessionRecord → Bytes
  marshal_record r = j.print (obj (record_members r))

  read_record : Option Members → Option DbscSessionRecord
  unfolding values assign
  read_record none = none
  read_record (some ms) = elim (field set_string [] (text "username") ms) [
    | none ↦ none
    | some username ↦ elim (field set_string [] (text "dbsc_pub_key") ms) [
      | none ↦ none
      | some key ↦ some (record { username = username; dbsc_pub_key = key })
    ]
  ]

  unfoldable pub unmarshal_record : Bytes → Option DbscSessionRecord
  unfolding document read_record
  unmarshal_record s = read_record (document j s)

  -- The field "jwt" of a document, `none` where Unmarshal fails.
  read_jwt : Option Members → Option Bytes
  unfolding values assign
  read_jwt none = none
  read_jwt (some ms) = field set_string [] (text "jwt") ms

  unfoldable pub unmarshal_jwt : Bytes → Option Bytes
  unfolding document read_jwt
  unmarshal_jwt s = read_jwt (document j s)

-- SdfEngine.Store: Get (`none` for its error) and Put in a transaction of its own, whose errors are
-- dropped.
pub record SessionStore (S : Type 0) : Type 0 where
  pub get : Bytes → S → Option Bytes
  pub put : Bytes → Bytes → ℕ → S → S

-- ParseUnverified gives the header's "jwk" as JSON text, `some none` where the header has none;
-- `parse_key` is UnmarshalJSON of a JWK, and `is_valid` whether jwt.Parse of a token under a key
-- returns a valid one at a time.
pub record Jwt : Type 1 where
  pub unverified_jwk : Bytes → Option (Option Bytes)
  pub Key : Type 0
  pub parse_key : Bytes → Option Key
  pub is_valid : Key → ℕ → Bytes → Bool

pub record SessionManager : Type 0 where
  pub validate_cookie_token : Bytes → Option Bytes
  pub extract_jti : Bytes → Option Bytes

-- The fields of the router that the handlers read; a nil SdfEngine is `none`.
pub record Bound (S : Type 0) : Type 0 where
  pub target_cookie : Bytes
  pub route_map : Map Bytes
  pub sessions : SessionManager
  pub store : Option (SessionStore S)

unfoldable pub request_origin : Request → Bytes
request_origin req =
    let host = without_port (or_text (get_header (text "X-Forwarded-Host") req.header) req.host) in
    let plain =
      not req.has_tls && get_header (text "X-Forwarded-Proto") req.header == text "http" in
    (if plain then text "http" else text "https") ++ (text "://" ++ to_lower host)

unfoldable is_one_of : Bytes → List Bytes → Bool
is_one_of s [] = false
is_one_of s (t ∷ ts) = s == t || is_one_of s ts

abbrev apex_domains : List Bytes
apex_domains =
    text "0trust.cloud"
    ∷ text "0trust.services"
    ∷ text "0trust.social"
    ∷ text "0trust.name"
    ∷ text "0trust.codes"
    ∷ text "williwaw.app"
    ∷ text "motionkb.com"
    ∷ text "defcon.chat"
    ∷ text "bandy.chat"
    ∷ text "tunneltug.com"
    ∷ []

-- Two labels, neither of them empty.
abbrev pub are_two_labels : List Bytes → Bool
are_two_labels (a ∷ b ∷ []) = not (is_empty a) && not (is_empty b)
are_two_labels _ = false

-- The host in lower case, without spaces around it.
include_site_of : Urls → Bytes → Bool
include_site_of urls host =
    if is_empty host || urls.is_ip host
    then false
    else if is_one_of host apex_domains
    then true
    else are_two_labels (split b'.' host)

pub dbsc_include_site_allowed : Urls → Bytes → Bool
unfolding include_site_of
dbsc_include_site_allowed urls host = include_site_of urls (to_lower (trim_space host))

abbrev wrapped_jwt : Bytes → Option Bytes → Bytes
wrapped_jwt raw none = raw
wrapped_jwt raw (some jwt) = if is_empty jwt then raw else jwt

-- readRegistrationJWT of the body; where reading it fails, the caller goes on with an empty text.
unfoldable pub read_registration_jwt : JsonText → Option Bytes → Bytes
read_registration_jwt j none = []
read_registration_jwt j (some body) =
    let raw = trim_space body in
    if is_empty raw
    then []
    else if has_prefix raw (text "{")
    then wrapped_jwt raw (unmarshal_jwt j body)
    else raw

abbrev jwk_text : Option (Option Bytes) → Bytes
jwk_text none = []
jwk_text (some none) = text "null"
jwk_text (some (some jwk)) = jwk

-- jwkFromRegistrationJWT: an error leaves the caller with an empty text.
unfoldable pub jwk_from_registration_jwt : Jwt → Bytes → Bytes
jwk_from_registration_jwt tokens jwt =
    if is_empty jwt then [] else jwk_text (tokens.unverified_jwk jwt)

session_key : Bytes → Bytes
session_key jti = text "data:session:" ++ jti

loaded : JsonText → Option Bytes → Option DbscSessionRecord
loaded j none = none
loaded j (some raw) = if is_empty raw then none else unmarshal_record j raw

module _ (j : JsonText) {S : Type 0} where
  -- loadDBSCSession
  unfoldable pub load_dbsc_session : Option (SessionStore S) → Bytes → S → Option DbscSessionRecord
  unfolding loaded session_key
  load_dbsc_session none jti s = none
  load_dbsc_session (some store) jti s = loaded j (store.get (session_key jti) s)

  -- saveDBSCSession
  unfoldable pub save_dbsc_session : Option (SessionStore S) → Bytes → DbscSessionRecord → ℕ → S → S
  unfolding session_key
  save_dbsc_session none jti rec ttl s = s
  save_dbsc_session (some store) jti rec ttl s =
      store.put (session_key jti) (marshal_record j rec) ttl s
