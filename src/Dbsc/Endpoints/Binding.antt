-- ===== src/Dbsc/Endpoints/Binding.antt =====
-- When handleRefreshEndpoint of dbsc.go refreshes a session.
use secure_network.Prelude.{
  ℕ, ◌<◌, ◌≤◌, ◌≡◌, ◌↔◌, ◌⊎◌, inl, inr, refl, true, false, ◌||◌, [], ◌∷◌, some, Bytes, text, ◌==◌,
  eq_iff, Result, ok, err, arith, Option-cases,
}
use secure_network.Strings.{is_empty}
use secure_network.Json.{JsonText}
use secure_network.Http.{Request, Response, Urls, cookie}
use secure_network.Dbsc.{DbscSessionRecord, Jwt, Bound, load_dbsc_session}
use secure_network.Dbsc.Endpoints.{
  Body, challenge, session_id, session_response, check_refresh, refresh_endpoint, refresh_checked,
  refreshed_response,
}

-- What the steps of a handler return when they stop is an error.
abbrev IsRefusal : {A : Type 0} → Result (Response Body) A → Type 0
IsRefusal (err r) = 200 < r.status
IsRefusal (ok a) = Unit

session_id_cases : (id jti : Bytes) → (is_empty id || id == jti) ≡ true → (id ≡ []) ⊎ (id ≡ jti)
session_id_cases [] jti h = inl refl
session_id_cases (c ∷ id) jti h = inr ((eq_iff (c ∷ id) jti).0 h)

module _ (j : JsonText) (urls : Urls) (tokens : Jwt) {S : Type 0} (b : Bound S) (now : ℕ)
    (stamp : Bytes) (req : Request) (s : S) where
  -- The conditions under which a session is refreshed.
  pub record Refreshes : Type 0 where
    pub token : Bytes
    pub jti : Bytes
    pub rec : DbscSessionRecord
    pub key : tokens.Key
    pub is_post : req.method ≡ text "POST"
    pub has_cookie : cookie b.target_cookie req ≡ some token
    pub token_full : is_empty token ≡ false
    pub names : b.sessions.extract_jti token ≡ some jti
    pub same_id : (session_id req ≡ []) ⊎ (session_id req ≡ jti)
    pub loads : load_dbsc_session j b.store jti s ≡ some rec
    pub is_bound : is_empty rec.dbsc_pub_key ≡ false
    pub responds : is_empty (session_response req) ≡ false
    pub parses : tokens.parse_key rec.dbsc_pub_key ≡ some key
    pub is_valid : tokens.is_valid key now (session_response req) ≡ true

  check_refresh-IsRefusal : IsRefusal (check_refresh j urls tokens b now stamp req s)
  unfolding check_refresh challenge
  check_refresh-IsRefusal = ground arith

  succeeded :
      (c : Result (Response Body) Bytes)
      → IsRefusal c
      → (refresh_checked j urls tokens b req c).status ≡ 200
      → (token : Bytes) × (c ≡ ok token)
  succeeded (err r) h e = absurd (omega arith)
  succeeded (ok token) h e = (token, refl)

  refresh_checked-status :
      (c : Result (Response Body) Bytes)
      → IsRefusal c
      → 200 ≤ (refresh_checked j urls tokens b req c).status
  unfolding refreshed_response
  refresh_checked-status (err r) h = omega arith
  refresh_checked-status (ok token) h = omega arith

  pub refresh_endpoint-status : 200 ≤ (refresh_endpoint j urls tokens b now stamp req s).status
  unfolding refresh_endpoint
  refresh_endpoint-status =
      refresh_checked-status (check_refresh j urls tokens b now stamp req s) check_refresh-IsRefusal

  check_refresh-Refreshes :
      (token : Bytes) → check_refresh j urls tokens b now stamp req s ≡ ok token → Refreshes
  unfolding check_refresh
  check_refresh-Refreshes token e =
      let post = eq_iff req.method (text "POST") in
      elim (Option-cases (cookie b.target_cookie req)) [
        | inl absent ↦ absurd (ground arith)
        | inr (token', has) ↦ elim (Option-cases (b.sessions.extract_jti token')) [
          | inl unnamed ↦ absurd (ground arith)
          | inr (jti, named) ↦ elim (Option-cases (load_dbsc_session j b.store jti s)) [
            | inl unloaded ↦ absurd (ground arith)
            | inr (rec, loaded) ↦ elim (Option-cases (tokens.parse_key rec.dbsc_pub_key)) [
              | inl unparsed ↦ absurd (ground arith)
              | inr (key, parsed) ↦
                  let same = session_id_cases (session_id req) jti (ground arith) in
                  record {
                    token = token';
                    jti = jti;
                    rec = rec;
                    key = key;
                    is_post = ground (arith, post);
                    has_cookie = has;
                    token_full = ground arith;
                    names = named;
                    same_id = same;
                    loads = loaded;
                    is_bound = ground arith;
                    responds = ground arith;
                    parses = parsed;
                    is_valid = ground arith;
                  }
            ]
          ]
        ]
      ]

  -- RefreshEndpoint answers with success exactly for a POST whose cookie names a session that its
  -- header, if there is one, names too, that is bound to a key, and whose response is not empty and
  -- valid under that key. Neither a challenge that was asked for nor the cookie's own validity is
  -- among the conditions.
  pub refresh_endpoint_iff :
      ((refresh_endpoint j urls tokens b now stamp req s).status ≡ 200) ↔ Refreshes
  unfolding refresh_endpoint check_refresh refreshed_response
  refresh_endpoint_iff = (
    λ e.
        let (token, passed) =
          succeeded (check_refresh j urls tokens b now stamp req s) check_refresh-IsRefusal e in
        check_refresh-Refreshes token passed,
    λ h.
        let same : (is_empty (session_id req) || session_id req == h.jti) ≡ true =
          ground (arith, eq_iff (session_id req) h.jti) in
        ground (arith, same, eq_iff req.method (text "POST")),
  )
