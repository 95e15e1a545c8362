-- ===== src/Client/Ends.antt =====
-- How a request ends: the callback was called once, or an error broke it off before.
use ps4rpi.Prelude.{
  ℕ, ◌≡◌, ◌≢◌, inl, inr, refl, Bool, true, false, not, Bool-cases, Option, none, some, List, [],
  ◌∷◌, if◌then◌else◌, ◌==◌, Bytes, arith,
}
use ps4rpi.Console.{is_negative}
use ps4rpi.Download.{is_good_status}
use ps4rpi.Tls.{SslVerify, TlsCall, TlsLog, HttpState, http_clear_last_error}
use ps4rpi.Tls.Options.{resolve_verify, apply_ssl_options}
use ps4rpi.Client.{
  HttpLibrary, Performed, call_back, with_status, get_status, not_sent, send_out, add_headers,
  on_connection, on_template, with_options, on_context, do_request, size_of_body,
}

nonzero : (n : ℕ) → not (n == 0) ≡ true → n ≢ 0
nonzero n h = ground arith

zero_of : (n : ℕ) → not (n == 0) ≡ false → n ≡ 0
zero_of n h = ground arith

negative-ne : (n : ℕ) → is_negative n ≡ true → n ≢ 0
negative-ne n h = ground arith

module _ {A : Type 0} (lib : HttpLibrary) (invalid_value : ℕ)
    (cb : TlsLog → (req_id status_code : ℕ) → (content_length : Option ℕ) → A → ℕ × A) where
  -- the handle is that of a request created for the URL on a connection
  abbrev pub Opened : (method : ℕ) → (url : Bytes) → Option Bytes → (req_id : ℕ) → Type 0
  Opened method url body req_id =
      (conn_id : ℕ) × (at_create : TlsLog) × (req_id
        ≡ lib.ret at_create (TlsCall.create_request conn_id method url (size_of_body body)))

  -- What the callback is told of an answer is what the library says of it.
  -- The request is one that was created for this URL, and sent with this body.
  pub record IsAnswer (method : ℕ) (url : Bytes) (body : Option Bytes) (req_id status_code : ℕ)
      (content_length : Option ℕ) : Type 0 where
    pub opened : Opened method url body req_id
    pub at_send : TlsLog
    pub sends : lib.ret at_send (TlsCall.send_request req_id body) ≡ 0
    pub at_status : TlsLog
    pub after_send : at_status ≡ TlsCall.send_request req_id body ∷ at_send
    pub status : status_code ≡ lib.status_code at_status req_id
    pub at_length : TlsLog
    pub after_status : at_length ≡ TlsCall.get_status_code req_id ∷ at_status
    pub length_known :
        content_length
        ≡ (if is_good_status status_code then lib.content_length at_length req_id else none)

  -- Either the request broke off with an error and the callback was not called, or the result is that
  -- of the one call of the callback.
  pub data Ends (method : ℕ) (url : Bytes) (body : Option Bytes) (arg : A) (r : Performed A)
      : Type 0 where
    broken : r.ret ≢ 0 → r.arg ≡ arg → Ends method url body arg r
    called :
        (at : TlsLog) (req_id status_code : ℕ) (content_length : Option ℕ)
        → IsAnswer method url body req_id status_code content_length
        → (cb at req_id status_code content_length arg).0 ≡ r.ret
        → (cb at req_id status_code content_length arg).1 ≡ r.arg
        → Ends method url body arg r

  if-Ends :
      {method : ℕ} {url : Bytes} {body : Option Bytes} {arg : A} {x y : Performed A} (b : Bool)
      → (b ≡ true → Ends method url body arg x)
      → Ends method url body arg y
      → Ends method url body arg (if b then x else y)
  if-Ends true h g = h refl
  if-Ends false h g = g

  status-Ends :
      (method : ℕ) (url : Bytes) (body : Option Bytes) (q code : ℕ) (arg : A) (s : HttpState)
      (sent : TlsLog)
      → Opened method url body q
      → lib.ret sent (TlsCall.send_request q body) ≡ 0
      → code ≡ lib.status_code (TlsCall.send_request q body ∷ sent) q
      → Ends method url body arg (
          with_status lib invalid_value cb q code arg s
            (TlsCall.get_status_code q ∷ TlsCall.send_request q body ∷ sent))
  unfolding with_status call_back
  status-Ends method url body q code arg s sent opened well told =
      let asked = TlsCall.send_request q body ∷ sent in
      let log = TlsCall.get_status_code q ∷ asked in
      elim (Bool-cases (is_good_status code)) [
        | inl good ↦ rw good (
            if-Ends (not (lib.ret log (TlsCall.get_content_length q) == 0))
              (λ bad. broken (nonzero (lib.ret log (TlsCall.get_content_length q)) bad) refl)
              (called _ q code (lib.content_length log q)
                (record {
                  opened = opened;
                  at_send = sent;
                  sends = well;
                  at_status = asked;
                  after_send = refl;
                  status = told;
                  at_length = log;
                  after_status = refl;
                  length_known = rw good;
                })
                refl refl))
        | inr bad ↦ rw bad (
            called log q code none
              (record {
                opened = opened;
                at_send = sent;
                sends = well;
                at_status = asked;
                after_send = refl;
                status = told;
                at_length = log;
                after_status = refl;
                length_known = rw bad;
              })
              refl refl)
      ]

  send-Ends :
      (method q : ℕ) (url : Bytes) (body : Option Bytes) (mode : SslVerify) (arg : A)
      (s : HttpState) (log : TlsLog)
      → Opened method url body q
      → Ends method url body arg (send_out lib invalid_value cb q url body mode arg s log)
  unfolding send_out not_sent get_status
  send-Ends method q url body mode arg s log opened =
      let c = TlsCall.send_request q body in
      let ret = lib.ret (c ∷ log) (TlsCall.get_status_code q) in
      elim (Bool-cases (not (lib.ret log c == 0))) [
        | inl bad ↦ rw bad (broken (nonzero (lib.ret log c) bad) refl)
        | inr good ↦ rw good (
            if-Ends (is_negative ret) (λ bad. broken (negative-ne ret bad) refl)
              (status-Ends method url body q _ arg s log opened (zero_of (lib.ret log c) good)
                refl))
      ]

  headers-Ends :
      (method q : ℕ) (url : Bytes) (body : Option Bytes) (mode : SslVerify)
      (headers : List (Bytes × Bytes)) (arg : A) (s : HttpState) (log : TlsLog)
      → Opened method url body q
      → Ends method url body arg
          (add_headers lib invalid_value cb q url body mode headers arg s log)
  unfolding add_headers
  headers-Ends method q url body mode [] arg s log opened =
      send-Ends method q url body mode arg s log opened
  headers-Ends method q url body mode ((name, value) ∷ headers) arg s log opened =
      let ret = lib.ret log (TlsCall.add_request_header q name value) in
      if-Ends (not (ret == 0)) (λ bad. broken (nonzero ret bad) refl)
        (headers-Ends method q url body mode headers arg s _ opened)

  closing-Ends :
      {method : ℕ} {url : Bytes} {body : Option Bytes} (arg : A) (call : TlsCall) (r : Performed A)
      → Ends method url body arg r
      → Ends method url body arg (record r { log = call ∷ r.log })
  closing-Ends arg call r (broken e u) = broken e u
  closing-Ends arg call r (called at q code n a e u) = called at q code n a e u

  connection-Ends :
      (c method : ℕ) (url : Bytes) (body : Option Bytes) (mode : SslVerify)
      (headers : List (Bytes × Bytes)) (arg : A) (s : HttpState) (log : TlsLog)
      → Ends method url body arg
          (on_connection lib invalid_value cb c method url body mode headers arg s log)
  unfolding on_connection
  connection-Ends c method url body mode headers arg s log =
      let ret = lib.ret log (TlsCall.create_request c method url (size_of_body body)) in
      if-Ends (is_negative ret) (λ bad. broken (negative-ne ret bad) refl)
        (closing-Ends arg _ _ (headers-Ends method _ url body mode headers arg s _ (c, log, refl)))

  template-Ends :
      (t method : ℕ) (url : Bytes) (body : Option Bytes) (mode : SslVerify)
      (headers : List (Bytes × Bytes)) (arg : A) (s : HttpState) (log : TlsLog)
      → Ends method url body arg
          (on_template lib invalid_value cb t method url body mode headers arg s log)
  unfolding on_template
  template-Ends t method url body mode headers arg s log =
      let ret = lib.ret log (TlsCall.create_connection t url) in
      if-Ends (is_negative ret) (λ bad. broken (negative-ne ret bad) refl)
        (closing-Ends arg _ _ (connection-Ends _ method url body mode headers arg s _))

  -- Whatever is asked, the request ends so.
  pub do_request-Ends :
      (url : Bytes) (method : ℕ) (body : Option Bytes) (headers : List (Bytes × Bytes)) (arg : A)
      (mode : SslVerify) (s : HttpState) (log : TlsLog)
      → invalid_value ≢ 0
      → Ends method url body arg
          (do_request lib invalid_value cb (some url) method body headers arg mode s log)
  unfolding do_request on_context with_options
  do_request-Ends url method body headers arg mode s log wrong =
      let tpl_id = lib.ret log (TlsCall.create_template s.libhttp_ctx_id) in
      let applied =
        apply_ssl_options lib.ret tpl_id url (resolve_verify mode s) (http_clear_last_error s)
          (TlsCall.create_template s.libhttp_ctx_id ∷ log) in
      if-Ends (is_negative tpl_id) (λ bad. broken (negative-ne tpl_id bad) refl)
        (closing-Ends arg _ _ (
          if-Ends (not applied.status) (λ unarmed. broken wrong refl)
            (template-Ends _ method url body (resolve_verify mode s) headers arg _ _)))
