-- ===== src/Router/Ingress/Identity.antt =====
-- Which subject the backend is told, in the headers that the ingress of router.go sets.
use secure_network.Prelude.{
  ◌≡◌, ◌≢◌, refl, ap, ap₂, eq_iff, sym, ◌∙◌, [], ◌∷◌, Option, none, some, Bytes, text, arith,
  lookup, lookup-insert_self, lookup-insert_ne,
}
use secure_network.Http.{Header, Request, cookie, get_header, set_header, first_value}
use secure_network.Router.Ingress.{identify, identified, validated, with_subject}

get_header-set_header : (name v : Bytes) (h : Header) → get_header name (set_header name v h) ≡ v
unfolding get_header set_header
get_header-set_header name v h = ap first_value (lookup-insert_self name (v ∷ []) h)

get_header-set_header_ne :
    (name other v : Bytes) (h : Header)
    → name ≢ other
    → get_header other (set_header name v h) ≡ get_header other h
unfolding get_header set_header
get_header-set_header_ne name other v h ne =
    ap first_value (lookup-insert_ne name other (v ∷ []) h ne)

abbrev pub subject_header : Bytes
subject_header = text "X-Secure-Subject"

abbrev pub id_header : Bytes
id_header = text "X-Secure-Session-Id"

-- The two headers of a request.
abbrev pub sent_names : Request → Bytes × Bytes
sent_names req = (get_header subject_header req.header, get_header id_header req.header)

abbrev pub told_by : Request → Bytes → Option Bytes → Bytes × Bytes
told_by req token none = sent_names req
told_by req token (some subject) = (subject, token)

abbrev told_on : (Bytes → Option Bytes) → Request → Option Bytes → Bytes × Bytes
told_on validate req none = sent_names req
told_on validate req (some token) = told_by req token (validate token)

-- The subject and the cookie of a valid session, or whatever the client wrote into the two headers.
abbrev pub told : Bytes → (Bytes → Option Bytes) → Request → Bytes × Bytes
told target_cookie validate req = told_on validate req (cookie target_cookie req)

abbrev pub KeepsOthers : Request → Request → Type 0
KeepsOthers passed req =
    (name : Bytes)
    → name ≢ subject_header
    → name ≢ id_header
    → get_header name passed.header ≡ get_header name req.header

id≢subject : id_header ≢ subject_header
id≢subject e = ground (arith, (eq_iff id_header subject_header).1 e)

validated-told_by :
    (req : Request) (token : Bytes) (o : Option Bytes)
    → (sent_names (validated req token o) ≡ told_by req token o)
      × KeepsOthers (validated req token o) req
validated-told_by req token none = (refl, λ name a b. refl)
validated-told_by req token (some subject) =
    let h = set_header subject_header subject req.header in
    (
      ap₂ (λ a b. (a, b))
          (get_header-set_header_ne id_header subject_header token h id≢subject
            ∙ get_header-set_header subject_header subject req.header)
          (get_header-set_header id_header token h),
      λ name a b.
          get_header-set_header_ne id_header name token h (λ e. b (sym e))
          ∙ get_header-set_header_ne subject_header name subject req.header (λ e. a (sym e)),
    )

validated-path :
    (req : Request) (token : Bytes) (o : Option Bytes) → (validated req token o).path ≡ req.path
validated-path req token none = refl
validated-path req token (some subject) = refl

module _ (target_cookie : Bytes) (validate : Bytes → Option Bytes) where
  pub identify-path : (req : Request) → (identify target_cookie validate req).path ≡ req.path
  unfolding identify
  identify-path req = go (cookie target_cookie req)
    where
      go : (o : Option Bytes) → (identified validate req o).path ≡ req.path
      go none = refl
      go (some token) = validated-path req token (validate token)

  -- The request that is passed on names the subject of a valid session and its cookie, whatever the client
  -- wrote into the headers. Without the cookie, or with one that is not valid, the client's own values of
  -- the two headers go through. No header of another name changes.
  pub identify-told :
      (req : Request)
      → (sent_names (identify target_cookie validate req) ≡ told target_cookie validate req)
        × KeepsOthers (identify target_cookie validate req) req
  unfolding identify
  identify-told req = go (cookie target_cookie req)
    where
      go :
          (o : Option Bytes)
          → (sent_names (identified validate req o) ≡ told_on validate req o)
            × KeepsOthers (identified validate req o) req
      go none = (refl, λ name a b. refl)
      go (some token) = validated-told_by req token (validate token)

  -- A client without a session can pass for any: for a request whose cookie is valid there is one that has no
  -- cookie at all and that reaches the backend with the same subject and session id in its headers.
  pub identify_forged :
      (req : Request) (token subject : Bytes)
      → cookie target_cookie req ≡ some token
      → validate token ≡ some subject
      → (forged : Request) × (forged.cookies ≡ [])
        × (sent_names (identify target_cookie validate forged)
            ≡ sent_names (identify target_cookie validate req))
  unfolding cookie lookup
  identify_forged req token subject has valid =
      let forged : Request = record (with_subject subject token req) { cookies = [] } in
      let (names, others) = validated-told_by req token (some subject) in
      let (mine, mine') = identify-told forged in
      let (real, real') = identify-told req in
      (
        forged,
        refl,
        mine ∙ names ∙ sym (real ∙ ap (told_on validate req) has ∙ ap (told_by req token) valid),
      )
