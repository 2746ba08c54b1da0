-- ===== src/Router/Ingress/Replies.antt =====
-- What a client gets of a reply or an error that proxyToTunnel of router.go writes through the interceptor.
use secure_network.Prelude.{
  ◌≤◌, sym, ◌==◌, lookup-insert, lookup, subst, eq_iff, append-nil, append_assoc, IsDistinct, ℕ,
  ◌≡◌, refl, ap, ◌∙◌, Bool, true, false, ◌&&◌, List, [], ◌∷◌, ◌++◌, Option, none, some, Bytes, text,
  is_some, if◌then◌else◌, arith,
}
use secure_network.Http.{Header, Request, header_values, add_header, set_header, cookie}
use secure_network.Router.Interceptor.{
  Reply, Writer, Act, write_header, write, announced, Interceptor, intercept_header,
  intercept_write, intercepted, new_interceptor, registration_header, is_informational, allows_body,
  finish_response,
}
use secure_network.Router.Ingress.{http_error, copy_reply, copy_body, add_values, add_fields}

-- The status that the client gets: an informational one is not the last, and 200 follows it.
abbrev pub final_status : ℕ → ℕ
final_status code = if is_informational code then 200 else code

-- Status and body of the answer, by whether the request was written and what was read.
abbrev pub tunnel_answer : Bool → Option Reply → ℕ × Bytes
tunnel_answer false o = (502, text "Failed to write to tunnel\n")
tunnel_answer true none = (502, text "Failed to read from tunnel\n")
tunnel_answer true (some resp) =
    let code = final_status resp.status in (code, if allows_body code then resp.body else [])

abbrev error_values : Bytes → List Bytes → List Bytes
error_values name vs =
    if text "X-Content-Type-Options" == name
    then text "nosniff" ∷ []
    else if text "Content-Type" == name
    then text "text/plain; charset=utf-8" ∷ []
    else vs

-- The values of a field of the answer, where the writer's header had `vs`.
abbrev pub tunnel_field : Bool → Option Reply → Bytes → List Bytes → List Bytes
tunnel_field false o name vs = error_values name vs
tunnel_field true none name vs = error_values name vs
tunnel_field true (some resp) name vs = vs ++ header_values name resp.header

-- A header is a map, and net/http panics at another status.
abbrev pub IsReply : Option Reply → Type 0
IsReply none = Unit
IsReply (some resp) = (100 ≤ resp.status) × (resp.status ≤ 999) × IsDistinct resp.header

abbrev pub reply_of : Bool → Option Reply → List Act
reply_of false o = http_error (text "Failed to write to tunnel") 502
reply_of true none = http_error (text "Failed to read from tunnel") 502
reply_of true (some resp) = copy_reply resp

-- Writers and interceptors that have another header, and nothing else.
abbrev pub with_header : Header → Interceptor → Interceptor
with_header h i = record i { writer = record i.writer { header = h } }

values-add :
    (name n v : Bytes) (vs : List Bytes) (h : Header)
    → (if name == n
        then header_values n (add_header name v h) ++ vs
        else header_values n (add_header name v h))
      ≡ (if name == n then header_values n h ++ (v ∷ vs) else header_values n h)
unfolding add_header
values-add name n v vs h = ground (
  arith,
  eq_iff name n,
  lookup-insert name n (header_values name h ++ (v ∷ [])) h,
  append_assoc (header_values n h) (v ∷ []) vs,
)

values_member :
    (name n : Bytes) (vs xs : List Bytes) (fields : Header)
    → lookup name fields ≡ none
    → (if name == n then xs ++ vs else xs) ++ header_values n fields
      ≡ xs ++ header_values n ((name, vs) ∷ fields)
unfolding lookup
values_member name n vs xs fields fresh = ground (arith, eq_iff name n, append-nil (xs ++ vs))

module _ (target_cookie : Bytes) (req : Request) where
  add_values-intercepted :
      (name : Bytes) (vs : List Bytes) (more : List Act) (i : Interceptor)
      → (h : Header) × (intercepted target_cookie req (add_values name vs more) i
          ≡ intercepted target_cookie req more (with_header h i))
        × ((n : Bytes)
            → header_values n h ≡ (
                if name == n
                then header_values n i.writer.header ++ vs
                else header_values n i.writer.header))
  unfolding intercepted add_header
  add_values-intercepted name [] more i =
      (i.writer.header, refl, λ n. ground (arith, append-nil (header_values n i.writer.header)))
  add_values-intercepted name (v ∷ vs) more i =
      let (h, e, fields) =
        add_values-intercepted name vs more (with_header (add_header name v i.writer.header) i) in
      (h, e, λ n. fields n ∙ values-add name n v vs i.writer.header)

  pub add_fields-intercepted :
      (fields : Header) (more : List Act) (i : Interceptor)
      → (h : Header) × (intercepted target_cookie req (add_fields fields more) i
          ≡ intercepted target_cookie req more (with_header h i))
        × (IsDistinct fields
            → (n : Bytes)
            → header_values n h ≡ header_values n i.writer.header ++ header_values n fields)
  unfolding lookup
  add_fields-intercepted [] more i =
      (i.writer.header, refl, λ distinct n. sym (append-nil (header_values n i.writer.header)))
  add_fields-intercepted ((name, vs) ∷ fields) more i =
      let (h, e, first) = add_values-intercepted name vs (add_fields fields more) i in
      let (h', e', later) = add_fields-intercepted fields more (with_header h i) in
      (
        h',
        e ∙ e',
        λ (fresh, distinct) n.
            later distinct n
            ∙ ap (λ xs. xs ++ header_values n fields) (first n)
            ∙ values_member name n vs (header_values n i.writer.header) fields fresh,
      )

  -- What the client got: a response with the status, the body after what the writer had, and each field's
  -- values.
  pub record IsAnswer (w : Writer) (code : ℕ) (body : Bytes) (field : Bytes → List Bytes)
      (p : Writer) : Type 0 where
    pub has_status : p.status ≡ some code
    pub has_body : p.body ≡ w.body ++ body
    pub has_fields :
        (name : Bytes)
        → header_values name p.sent ≡ (
            if is_some (cookie target_cookie req) && text "Secure-Session-Registration" == name
            then registration_header ∷ []
            else field name)

module _ (target_cookie : Bytes) (req : Request) (w : Writer) (none_sent : w.status ≡ none) where
  values-announced :
      (name : Bytes) (h : Header)
      → header_values name (announced target_cookie req h) ≡ (
          if is_some (cookie target_cookie req) && text "Secure-Session-Registration" == name
          then registration_header ∷ []
          else header_values name h)
  unfolding set_header
  values-announced name h =
      ground (
        arith,
        lookup-insert (text "Secure-Session-Registration") name (registration_header ∷ []) h,
      )

  abbrev error_header : Header
  error_header =
      set_header (text "X-Content-Type-Options") (text "nosniff")
        (set_header (text "Content-Type") (text "text/plain; charset=utf-8") w.header)

  values-error_header :
      (name : Bytes)
      → header_values name error_header ≡ error_values name (header_values name w.header)
  unfolding set_header
  values-error_header name = ground (
    arith,
    lookup-insert (text "X-Content-Type-Options") name (text "nosniff" ∷ [])
        (set_header (text "Content-Type") (text "text/plain; charset=utf-8") w.header),
    lookup-insert (text "Content-Type") name (text "text/plain; charset=utf-8" ∷ []) w.header,
  )

  -- The values of a field in the header that is sent.
  abbrev or_registration : Bytes → List Bytes → List Bytes
  or_registration name vs =
      if is_some (cookie target_cookie req) && text "Secure-Session-Registration" == name
      then registration_header ∷ []
      else vs

  -- A status and a body, written once the header is set.
  written-IsAnswer :
      (h : Header) (code : ℕ) (body : Bytes)
      → let c = final_status code in
        IsAnswer target_cookie req w c
          (if allows_body c then body else [])
          (λ name. header_values name h)
          (finish_response
            (intercepted target_cookie req
              (write_header code ∷ copy_body body)
              (with_header h (new_interceptor w))).writer)
  unfolding intercepted intercept_header intercept_write
  written-IsAnswer h code [] = record {
    has_status = ground arith;
    has_body = ground (arith, append-nil w.body);
    has_fields = λ name. ground (arith, values-announced name h);
  }
  written-IsAnswer h code (x ∷ body) = record {
    has_status = ground arith;
    has_body = ground (arith, append-nil w.body);
    has_fields = λ name. ground (arith, values-announced name h);
  }

  http_error-intercepted :
      (reason : Bytes)
      → intercepted target_cookie req (http_error reason 502) (new_interceptor w)
        ≡ intercepted target_cookie req
            (write_header 502 ∷ write (reason ++ text "\n") ∷ [])
            (with_header error_header (new_interceptor w))
  unfolding intercepted http_error
  http_error-intercepted reason = refl

  error-IsAnswer :
      (reason : Bytes)
      → copy_body (reason ++ text "\n") ≡ write (reason ++ text "\n") ∷ []
      → IsAnswer target_cookie req w 502
          (reason ++ text "\n")
          (λ name. error_values name (header_values name w.header))
          (finish_response
            (intercepted target_cookie req (http_error reason 502) (new_interceptor w)).writer)
  error-IsAnswer reason full =
      let i = with_header error_header (new_interceptor w) in
      let answer =
        subst
          (λ calls.
            IsAnswer target_cookie req w 502 (reason ++ text "\n")
              (λ name. header_values name error_header)
              (finish_response (intercepted target_cookie req (write_header 502 ∷ calls) i).writer))
          full (written-IsAnswer error_header 502 (reason ++ text "\n")) in
      rw (http_error-intercepted reason) (record {
        has_status = answer.has_status;
        has_body = answer.has_body;
        has_fields =
            λ name. answer.has_fields name ∙ ap (or_registration name) (values-error_header name);
      })

  copied-IsAnswer :
      (resp : Reply)
      → IsDistinct resp.header
      → let (code, body) = tunnel_answer true (some resp) in
        IsAnswer target_cookie req w code body
          (λ name. header_values name w.header ++ header_values name resp.header)
          (finish_response
            (intercepted target_cookie req (copy_reply resp) (new_interceptor w)).writer)
  unfolding copy_reply
  copied-IsAnswer resp distinct =
      let (h, e, fields) =
        add_fields-intercepted target_cookie req resp.header
          (write_header resp.status ∷ copy_body resp.body) (new_interceptor w) in
      let answer = written-IsAnswer h resp.status resp.body in
      rw e (record {
        has_status = answer.has_status;
        has_body = answer.has_body;
        has_fields =
            λ name. answer.has_fields name ∙ ap (or_registration name) (fields distinct name);
      })

  pub reply_of-IsAnswer :
      (written : Bool) (o : Option Reply)
      → IsReply o
      → let (code, body) = tunnel_answer written o in
        IsAnswer target_cookie req w code body
          (λ name. tunnel_field written o name (header_values name w.header))
          (finish_response
            (intercepted target_cookie req (reply_of written o) (new_interceptor w)).writer)
  reply_of-IsAnswer false o distinct = error-IsAnswer (text "Failed to write to tunnel") refl
  reply_of-IsAnswer true none distinct = error-IsAnswer (text "Failed to read from tunnel") refl
  reply_of-IsAnswer true (some resp) (low, high, distinct) = copied-IsAnswer resp distinct
