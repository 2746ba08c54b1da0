-- ===== src/Router/Interceptor.antt =====
-- dbscInterceptor of router.go, over a ResponseWriter of net/http, and that it changes nothing of a response
-- but one header.
use secure_network.Prelude.{
  ◌≤◌, leb, eqb, not, ◌&&◌, ◌||◌, ℕ, ◌≡◌, refl, ap, sym, subst, ◌∙◌, Bool, true, false, List, [],
  ◌∷◌, ◌++◌, Option, none, some, Bytes, text, is_some, arith, if◌then◌else◌,
}
use secure_network.Http.{Header, Request, cookie, set_header, add_header}

-- http.Response, with its body as it was read.
pub record Reply : Type 0 where
  pub status : ℕ
  pub header : Header
  pub body : Bytes

-- An http.ResponseWriter: the header map, the informational responses that were sent, and what was sent
-- as the response: the status with the header as it was then, and the body. Of a HEAD request the server
-- keeps the body to itself. `switched` is what was written to the connection after Hijack.
pub record Writer : Type 0 where
  pub header : Header
  pub informed : List (ℕ × Header)
  pub status : Option ℕ
  pub sent : Header
  pub body : Bytes
  pub switched : Option Reply

-- The calls that a handler makes on its ResponseWriter.
pub data Act : Type 0 where
  set_field add_field : Bytes → Bytes → Act
  write_header : ℕ → Act
  write : Bytes → Act

-- A status 1xx but 101, Switching Protocols.
abbrev pub is_informational : ℕ → Bool
is_informational code = leb 100 code && leb code 199 && not (eqb code 101)

-- Whether a response of the status has a body.
abbrev pub allows_body : ℕ → Bool
allows_body code = not (leb 100 code && leb code 199 || eqb code 204 || eqb code 304)

-- WriteHeader of net/http, for a code from 100 to 999, at any other it panics: an informational one sends a
-- response of its own, and the first other call counts.
abbrev pub send_header : ℕ → Writer → Writer
send_header code w =
    if is_some w.status
    then w
    else if is_informational code
    then record w { informed = w.informed ++ ((code, w.header) ∷ []) }
    else record w { status = some code; sent = w.header }

abbrev status_allows_body : Option ℕ → Bool
status_allows_body none = true
status_allows_body (some code) = allows_body code

-- Write of net/http: with a status that has no body it is an error.
abbrev pub send_body : Bytes → Writer → Writer
send_body b w =
    let w' = send_header 200 w in
    if status_allows_body w'.status then record w' { body = w'.body ++ b } else w'

-- What the server does when the handler has returned.
abbrev pub finish_response : Writer → Writer
finish_response w = send_header 200 w

abbrev pub act : Act → Writer → Writer
act (set_field name v) w = record w { header = set_header name v w.header }
act (add_field name v) w = record w { header = add_header name v w.header }
act (write_header code) w = send_header code w
act (write b) w = send_body b w

unfoldable pub acts : List Act → Writer → Writer
acts [] w = w
acts (a ∷ rest) w = acts rest (act a w)

pub record Interceptor : Type 0 where
  pub writer : Writer
  pub wrote : Bool

abbrev pub registration_header : Bytes
registration_header = text "(ES256 RS256); path=\"/StartSession\""

module _ (target_cookie : Bytes) (req : Request) where
  -- The header that the interceptor sets, if the request has the cookie.
  abbrev pub announced : Header → Header
  announced h =
      if is_some (cookie target_cookie req)
      then set_header (text "Secure-Session-Registration") registration_header h
      else h

  -- WriteHeader
  unfoldable pub intercept_header : ℕ → Interceptor → Interceptor
  intercept_header code i = if i.wrote then i else record {
    wrote = true;
    writer = send_header code (record i.writer { header = announced i.writer.header });
  }

  -- Write
  unfoldable pub intercept_write : Bytes → Interceptor → Interceptor
  unfolding intercept_header
  intercept_write b i =
      let i' = intercept_header 200 i in record i' { writer = send_body b i'.writer }

  abbrev pub intercept : Act → Interceptor → Interceptor
  intercept (write_header code) i = intercept_header code i
  intercept (write b) i = intercept_write b i
  intercept a i = record i { writer = act a i.writer }

  unfoldable pub intercepted : List Act → Interceptor → Interceptor
  intercepted [] i = i
  intercepted (a ∷ rest) i = intercepted rest (intercept a i)

-- A status that net/http takes, and with which the response is sent.
abbrev pub IsFinalStatus : ℕ → Type 0
IsFinalStatus code = (100 ≤ code) × (code ≤ 999) × (is_informational code ≡ false)

-- Every call of WriteHeader has such a status.
abbrev IsFinal : Act → Type 0
IsFinal (write_header code) = IsFinalStatus code
IsFinal _ = Unit

abbrev pub AreFinal : List Act → Type 0
AreFinal [] = Unit
AreFinal (a ∷ calls) = IsFinal a × AreFinal calls

abbrev pub new_writer : Writer
new_writer = record {
  header = [];
  informed = [];
  status = none;
  sent = [];
  body = [];
  switched = none;
}

abbrev pub new_interceptor : Writer → Interceptor
new_interceptor w = record { writer = w; wrote = false }

module _ (target_cookie : Bytes) (req : Request) where
  -- What is sent through the interceptor is what is sent without it, with the header announced.
  record IsSent (i w : Writer) : Type 0 where
    done : is_some w.status ≡ true
    same_status : i.status ≡ w.status
    same_sent : i.sent ≡ announced target_cookie req w.sent
    same_body : i.body ≡ w.body

  data Agrees : Interceptor → Writer → Type 0 where
    before : {w : Writer} → w.status ≡ none → Agrees (new_interceptor w) w
    after : {i w : Writer} → IsSent i w → Agrees (record { writer = i; wrote = true }) w

  announced_once :
      (code : ℕ) (w : Writer)
      → is_informational code ≡ false
      → w.status ≡ none
      → IsSent
          (send_header code (record w { header = announced target_cookie req w.header }))
          (send_header code w)
  announced_once code w final none_sent = record {
    done = ground arith;
    same_status = ground arith;
    same_sent = ground arith;
    same_body = ground arith;
  }

  send_body-IsSent :
      (b : Bytes) (i w : Writer) → IsSent i w → IsSent (send_body b i) (send_body b w)
  send_body-IsSent b i w h = record {
    done = ground arith;
    same_status = ground arith;
    same_sent = ground arith;
    same_body = ground arith;
  }

  send_body_once :
      (b : Bytes) (w : Writer)
      → w.status ≡ none
      → IsSent
          (send_body b
            (send_header 200 (record w { header = announced target_cookie req w.header })))
          (send_body b w)
  send_body_once b w none_sent = record {
    done = ground arith;
    same_status = ground arith;
    same_sent = ground arith;
    same_body = ground arith;
  }

  field-IsSent :
      {i w i' w' : Writer}
      → IsSent i w
      → (i'.status ≡ i.status) × (i'.sent ≡ i.sent) × (i'.body ≡ i.body)
      → (w'.status ≡ w.status) × (w'.sent ≡ w.sent) × (w'.body ≡ w.body)
      → IsSent i' w'
  field-IsSent {i} {w} {i'} {w'} h (a, b, c) (d, e, f) = record {
    done = ap is_some d ∙ h.done;
    same_status = a ∙ h.same_status ∙ sym d;
    same_sent = b ∙ h.same_sent ∙ ap (announced target_cookie req) (sym e);
    same_body = c ∙ h.same_body ∙ sym f;
  }

  send_header_done : (code : ℕ) (w : Writer) → is_some w.status ≡ true → send_header code w ≡ w
  send_header_done code w done = rw done refl

  intercept-Agrees :
      (a : Act) {i : Interceptor} {w : Writer}
      → IsFinal a
      → Agrees i w
      → Agrees (intercept target_cookie req a i) (act a w)
  unfolding intercept_header intercept_write
  intercept-Agrees (set_field name v) final (before none_sent) = before none_sent
  intercept-Agrees (add_field name v) final (before none_sent) = before none_sent
  intercept-Agrees (write_header code) final (before {w} none_sent) =
      after (announced_once code w final.2 none_sent)
  intercept-Agrees (write b) final (before {w} none_sent) = after (send_body_once b w none_sent)
  intercept-Agrees (set_field name v) final (after h) =
      after (field-IsSent h (refl, refl, refl) (refl, refl, refl))
  intercept-Agrees (add_field name v) final (after h) =
      after (field-IsSent h (refl, refl, refl) (refl, refl, refl))
  intercept-Agrees (write_header code) final (after {i} {w} h) =
      after (subst (IsSent i) (sym (send_header_done code w h.done)) h)
  intercept-Agrees (write b) final (after {i} {w} h) = after (send_body-IsSent b i w h)

  intercepted-Agrees :
      (calls : List Act) {i : Interceptor} {w : Writer}
      → AreFinal calls
      → Agrees i w
      → Agrees (intercepted target_cookie req calls i) (acts calls w)
  unfolding intercepted acts
  intercepted-Agrees [] final h = h
  intercepted-Agrees (a ∷ calls) (final, later) h =
      intercepted-Agrees calls later (intercept-Agrees a final h)

  abbrev pub Same : Writer → Writer → Type 0
  Same i p =
      (i.status ≡ p.status)
      × (i.body ≡ p.body)
      × (p.status ≡ none → i ≡ p)
      × (is_some p.status ≡ true → i.sent ≡ announced target_cookie req p.sent)

  Agrees-Same : {i : Interceptor} {p : Writer} → Agrees i p → Same i.writer p
  Agrees-Same (before {w} none_sent) = (refl, refl, λ e. refl, λ e. absurd (ground arith))
  Agrees-Same (after h) =
      (h.same_status, h.same_body, λ e. absurd (ground (arith, h.done)), λ e. h.same_sent)

  pub intercepted_final :
      (calls : List Act) (w : Writer)
      → w.status ≡ none
      → AreFinal calls
      → Same (intercepted target_cookie req calls (new_interceptor w)).writer (acts calls w)
  intercepted_final calls w none_sent final =
      Agrees-Same (intercepted-Agrees calls final (before none_sent))

  -- What a handler sends through the interceptor, on a writer that has sent nothing yet. If every status
  -- that it writes is from 100 to 999 and none is informational, that is 1xx but 101, it is what it sends
  -- without the interceptor: the same status and the same body, and the same header except that a request
  -- with the target cookie gets Secure-Session-Registration set; where the handler makes no call that
  -- sends the header, nothing is set. But an informational status makes the interceptor swallow such a one
  -- that follows: the client is answered 200, where it would get the status of the second call without the
  -- interceptor.
  pub intercepted-acts :
      (w : Writer)
      → w.status ≡ none
      → ((calls : List Act)
          → AreFinal calls
          → Same (intercepted target_cookie req calls (new_interceptor w)).writer (acts calls w))
        × ((early code : ℕ)
            → is_informational early ≡ true
            → IsFinalStatus code
            → let calls = write_header early ∷ write_header code ∷ [] in
              let through = (intercepted target_cookie req calls (new_interceptor w)).writer in
              ((finish_response through).status ≡ some 200)
              × ((finish_response (acts calls w)).status ≡ some code))
  unfolding intercepted acts intercept_header
  intercepted-acts w none_sent = (
    λ calls final. intercepted_final calls w none_sent final,
    λ early code informs (low, high, final). (ground arith, ground arith),
  )
