-- ===== src/Http.antt =====
-- What the handlers use of net/http and net/url: a request as the server read it, and the response
-- that is written for it. Header names are in their canonical form. Parsing a URL and an IP address
-- is a parameter.
use secure_network.Prelude.{
  ℕ, Bool, List, [], ◌∷◌, ◌++◌, Option, none, some, Bytes, if◌then◌else◌, Map, lookup, insert,
}
use secure_network.Strings.{is_empty}
use secure_network.Strings.HostPort.{split_host}

abbrev pub Header : Type 0
Header = Map (List Bytes)

-- The values of the header `Cookie`, by name, in their order: a name may stand twice. The body is
-- `none` where reading it fails.
pub record Request : Type 0 where
  pub method : Bytes
  pub host : Bytes
  pub path : Bytes
  pub has_tls : Bool
  pub header : Header
  pub cookies : List (Bytes × Bytes)
  pub body : Option Bytes

-- Set-Cookie, as http.SetCookie writes it, and what is written behind it.
pub record SetCookie : Type 0 where
  pub name : Bytes
  pub value : Bytes
  pub max_age : ℕ
  pub domain : Bytes
  pub path : Bytes
  pub secure : Bool
  pub http_only : Bool
  pub same_site_lax : Bool
  pub suffix : Bytes

-- A response that is written at once; the type of its body is the handler's.
pub record Response (Body : Type 0) : Type 0 where
  pub status : ℕ
  pub header : Header
  pub cookies : List SetCookie
  pub body : Body

-- url.Parse with Hostname and with Path, and net.ParseIP: `none` is an error.
pub record Urls : Type 0 where
  pub hostname : Bytes → Option Bytes
  pub path : Bytes → Option Bytes
  pub is_ip : Bytes → Bool

abbrev pub first_value : Option (List Bytes) → Bytes
first_value (some (v ∷ vs)) = v
first_value _ = []

-- Header.Get: the first value, or an empty text.
unfoldable pub get_header : Bytes → Header → Bytes
get_header name h = first_value (lookup name h)

-- Header.Set
unfoldable pub set_header : Bytes → Bytes → Header → Header
set_header name v h = insert name (v ∷ []) h

abbrev values_of : Option (List Bytes) → List Bytes
values_of none = []
values_of (some vs) = vs

-- Header.Values
abbrev pub header_values : Bytes → Header → List Bytes
header_values name h = values_of (lookup name h)

-- Header.Add
unfoldable pub add_header : Bytes → Bytes → Header → Header
add_header name v h = insert name (values_of (lookup name h) ++ (v ∷ [])) h

-- Request.Cookie, and the range over Cookies that stops at the name: the first of the name.
unfoldable pub cookie : Bytes → Request → Option Bytes
cookie name req = lookup name req.cookies

-- The host of an address, which may have a port.
unfoldable pub without_port : Bytes → Bytes
without_port address = elim (split_host address) [ none ↦ address | some host ↦ host ]

-- The first text that is not empty.
abbrev pub or_text : Bytes → Bytes → Bytes
or_text s t = if is_empty s then t else s
