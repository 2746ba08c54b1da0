-- ===== src/Dbsc/Endpoints/Rebinding.antt =====
-- What handleStartSession of dbsc.go leaves for handleRefreshEndpoint.
use secure_network.Prelude.{
  List, All, drop, ◌≢◌, ◌∷◌, Result, err, ℕ, ◌*◌, ◌≡◌, ◌⊎◌, refl, ap, ◌∙◌, true, false, [], Option,
  none, some, Bytes, text, ◌==◌, eq_iff, ok, arith, ◌||◌, if◌then◌else◌, inl, inr, Option-cases,
}
use secure_network.Strings.{is_empty, to_lower}
use secure_network.Json.{JsonText, IsJsonText, IsPlain, str}
use secure_network.Wire.RoundTrip.{document-print}
use secure_network.Http.{Request, Response, Urls, cookie}
use secure_network.Dbsc.{
  DbscSessionRecord, SessionStore, Jwt, Bound, record_members, marshal_record, unmarshal_record,
  read_record, loaded, session_key, load_dbsc_session, save_dbsc_session, read_registration_jwt,
  jwk_from_registration_jwt,
}
use secure_network.Dbsc.Endpoints.{
  Body, start_checked, started_record, check_start, start_session, session_id, session_response,
  check_refresh, refresh_endpoint, refreshed_response, challenge,
}

-- What is promised of the store: Get returns what was Put last under the key.
pub record IsSessionStore {S : Type 0} (store : SessionStore S) : Type 0 where
  pub get-put : (key v : Bytes) (ttl : ℕ) (s : S) → store.get key (store.put key v ttl s) ≡ some v
  pub get-put_ne :
      (key other v : Bytes) (ttl : ℕ) (s : S)
      → key ≢ other
      → store.get other (store.put key v ttl s) ≡ store.get other s

session_key_inj : (a b : Bytes) → session_key a ≡ session_key b → a ≡ b
unfolding session_key
session_key_inj a b e = ap (drop 13) e

module _ (j : JsonText) (law : IsJsonText j) where
  read_record-members : (r : DbscSessionRecord) → read_record j (some (record_members j r)) ≡ some r
  unfolding read_record to_lower ◌==◌
  read_record-members r = ground arith

  is_empty-marshal_record : (r : DbscSessionRecord) → is_empty (marshal_record j r) ≡ false
  unfolding marshal_record
  is_empty-marshal_record r =
      let (a, b, c, t, e) = law.print-member (text "username") (str r.username) _ in ap is_empty e

  loaded-marshal_record :
      (r : DbscSessionRecord)
      → IsPlain (record_members j r)
      → loaded j (some (marshal_record j r)) ≡ some r
  unfolding loaded unmarshal_record marshal_record
  loaded-marshal_record r plain =
      let read =
        ap (read_record j) (document-print j law (record_members j r) plain)
        ∙ read_record-members r in
      ground (arith, is_empty-marshal_record r, read)

-- The status of a refresh whose session is bound to the text `jwk`, or to nothing where that is empty.
abbrev bound_status : Jwt → Bytes → ℕ → Bytes → ℕ
bound_status tokens jwk now response =
    if is_empty jwk then 400 else if is_empty response then 403 else elim (tokens.parse_key jwk) [
      | none ↦ 500
      | some key ↦ if tokens.is_valid key now response then 200 else 403
    ]

started_record-dbsc_pub_key :
    (subject jwk : Bytes) (old : Option DbscSessionRecord)
    → (started_record subject jwk old).dbsc_pub_key ≡ jwk
unfolding started_record
started_record-dbsc_pub_key subject jwk none = refl
started_record-dbsc_pub_key subject jwk (some r) = refl

module _ (j : JsonText) (urls : Urls) (tokens : Jwt) {S : Type 0} (b : Bound S) where
  -- What a start registers.
  abbrev pub registered : Request → Bytes
  registered req = jwk_from_registration_jwt tokens (read_registration_jwt j req.body)

  record StartPasses (req : Request) (token subject jti : Bytes) : Type 0 where
    has_cookie : cookie b.target_cookie req ≡ some token
    token_full : is_empty token ≡ false
    names : b.sessions.extract_jti token ≡ some jti

  check_start-StartPasses :
      (req : Request) {token subject jti : Bytes}
      → check_start j urls tokens b req ≡ ok (token, subject, jti)
      → StartPasses req token subject jti
  unfolding check_start
  check_start-StartPasses req {token} {subject} {jti} e =
      elim (Option-cases (cookie b.target_cookie req)) [
        | inl absent ↦ absurd (ground arith)
        | inr (t, has) ↦ elim (Option-cases (b.sessions.validate_cookie_token t)) [
          | inl invalid ↦ absurd (ground arith)
          | inr (u, valid) ↦ elim (Option-cases (b.sessions.extract_jti t)) [
            | inl unnamed ↦ absurd (ground arith)
            | inr (i, named) ↦ record {
              has_cookie = ground arith;
              token_full = ground arith;
              names = ground arith;
            }
          ]
        ]
      ]

  -- The status, once the session is loaded.
  refresh_endpoint-bound_status :
      (later : Request) (s : S) (now : ℕ) (stamp : Bytes) {token jti : Bytes}
      (rec : DbscSessionRecord)
      → later.method ≡ text "POST"
      → cookie b.target_cookie later ≡ some token
      → is_empty token ≡ false
      → b.sessions.extract_jti token ≡ some jti
      → (session_id later ≡ []) ⊎ (session_id later ≡ jti)
      → load_dbsc_session j b.store jti s ≡ some rec
      → (refresh_endpoint j urls tokens b now stamp later s).status
        ≡ bound_status tokens rec.dbsc_pub_key now (session_response later)
  unfolding refresh_endpoint check_refresh refreshed_response challenge
  refresh_endpoint-bound_status later s now stamp {token} {jti} rec post has full names id loads =
      let same : (is_empty (session_id later) || session_id later == jti) ≡ true =
        ground (arith, eq_iff (session_id later) jti) in
      ground (arith, eq_iff later.method (text "POST"))

  -- Calls of StartSession, one after another.
  pub start_sessions : List Request → S → S
  start_sessions [] s = s
  start_sessions (req ∷ reqs) s = start_sessions reqs (start_session j urls tokens b req s).0

  -- The request, if it passes the checks, is for another session.
  abbrev pub IsForOther : Bytes → Request → Type 0
  IsForOther jti req =
      (token subject id : Bytes)
      → check_start j urls tokens b req ≡ ok (token, subject, id)
      → id ≢ jti

  module _ (store : SessionStore S) (held : b.store ≡ some store) (keeps : IsSessionStore store)
      (jti : Bytes) where
    start_session-other :
        (req : Request) (s : S)
        → IsForOther jti req
        → load_dbsc_session j b.store jti (start_session j urls tokens b req s).0
          ≡ load_dbsc_session j b.store jti s
    unfolding start_session save_dbsc_session load_dbsc_session
    start_session-other req s other = go (check_start j urls tokens b req) refl
      where
        go :
            (c : Result (Response Body) (Bytes × Bytes × Bytes))
            → check_start j urls tokens b req ≡ c
            → load_dbsc_session j b.store jti (start_checked j urls tokens b req s c).0
              ≡ load_dbsc_session j b.store jti s
        go (err r) stopped = refl
        go (ok (token, subject, id)) passed =
            let jwk = jwk_from_registration_jwt tokens (read_registration_jwt j req.body) in
            let rec = started_record subject jwk (load_dbsc_session j b.store id s) in
            let same =
              keeps.get-put_ne (session_key id) (session_key jti) (marshal_record j rec) (24 * 3600)
                s (λ e. other token subject id passed (session_key_inj id jti e)) in
            ground (arith, held, same)

    start_sessions-other :
        (reqs : List Request) (s : S)
        → All (IsForOther jti) reqs
        → load_dbsc_session j b.store jti (start_sessions reqs s)
          ≡ load_dbsc_session j b.store jti s
    unfolding start_sessions
    start_sessions-other [] s others = refl
    start_sessions-other (req ∷ reqs) s (other, others) =
        start_sessions-other reqs (start_session j urls tokens b req s).0 others
        ∙ start_session-other req s other

  module _ (law : IsJsonText j) (store : SessionStore S) (held : b.store ≡ some store)
      (keeps : IsSessionStore store) (req : Request) (s : S) {token subject jti : Bytes}
      (passes : check_start j urls tokens b req ≡ ok (token, subject, jti)) where
    abbrev new_record : DbscSessionRecord
    new_record = started_record subject (registered req) (load_dbsc_session j b.store jti s)

    load_dbsc_session-start_session :
        IsPlain (record_members j new_record)
        → load_dbsc_session j b.store jti (start_session j urls tokens b req s).0 ≡ some new_record
    unfolding load_dbsc_session start_session save_dbsc_session
    load_dbsc_session-start_session plain =
        let got = keeps.get-put (session_key jti) (marshal_record j new_record) (24 * 3600) s in
        ground (arith, held, passes, got, loaded-marshal_record j law new_record plain)

    -- The last start of a session decides its refreshes. For a StartSession that passes its checks with the
    -- token, the subject and the id, over a store whose Get returns what was Put last under the key, with
    -- a record of ASCII text, and then any calls of StartSession for other sessions: a POST to
    -- RefreshEndpoint with the same cookie, and with the header for this id or none, is answered by what
    -- that start registered, whatever was bound before. If it registered no key, by 400; else, without a response,
    -- by 403, under a key that does not parse by 500, and else by 200 or by 403 as the response is valid
    -- under that key or not.
    pub refresh_endpoint-start_session :
        IsPlain (record_members j new_record)
        → (others : List Request) → All (IsForOther jti) others
        → (later : Request) (now : ℕ) (stamp : Bytes) → later.method ≡ text "POST"
        → cookie b.target_cookie later ≡ some token
        → (session_id later ≡ []) ⊎ (session_id later ≡ jti)
        → (refresh_endpoint j urls tokens b now stamp later
            (start_sessions others (start_session j urls tokens b req s).0)).status
          ≡ bound_status tokens (registered req) now (session_response later)
    refresh_endpoint-start_session plain others elsewhere later now stamp post has id =
        let p = check_start-StartPasses req passes in
        let started = (start_session j urls tokens b req s).0 in
        let loads =
          start_sessions-other store held keeps jti others started elsewhere
          ∙ load_dbsc_session-start_session plain in
        let old = load_dbsc_session j b.store jti s in
        refresh_endpoint-bound_status later (start_sessions others started) now stamp new_record
          post has p.token_full p.names id loads
        ∙ ap (λ key. bound_status tokens key now (session_response later))
            (started_record-dbsc_pub_key subject (registered req) old)
