-- ===== src/Client.antt =====
-- RPI/http.c, requests: `do_request`. The calls on the console's HTTP library go to the log of Tls.
-- What a callback reads of a response is not logged.
pub mod Transfer
pub mod Closed
pub mod Ends
mod Tests
use ps4rpi.Prelude.{
  [], ℕ, Bool, true, false, not, ◌&&◌, Option, none, some, List, ◌∷◌, ◌++◌, if◌then◌else◌, ◌==◌,
  length, Bytes, codes,
}
use ps4rpi.Console.{is_negative}
use ps4rpi.Text.{starts_with}
use ps4rpi.Text.Decimal.{decimal_int}
use ps4rpi.Download.{ReadData, is_good_status}
use ps4rpi.Tls.{
  SslVerify, TlsCall, TlsLog, TlsLibrary, HttpState, hex8, set_last_error, http_clear_last_error,
  is_on,
}
use ps4rpi.Tls.Options.{resolve_verify, apply_ssl_options}

-- The console's HTTP library: what its calls return, and what those with out pointers store. A
-- length is none where its type is not ORBIS_HTTP_CONTENTLEN_EXIST.
pub record HttpLibrary : Type 0 where
  pub ret : TlsLibrary
  pub last_errno : TlsLog → ℕ → ℕ
  pub status_code : TlsLog → ℕ → ℕ
  pub content_length : TlsLog → ℕ → Option ℕ
  pub read : TlsLog → ℕ → (offset room : ℕ) → ReadData
  pub malloc : ℕ → Bool
  -- sceHttpUriUnescape: its result and the size without a buffer, then with one
  pub unescape_size : Bytes → ℕ × ℕ
  pub unescape : Bytes → ℕ × Bytes

abbrev pub method_get : ℕ
method_get = 0

abbrev pub download_chunk_size : ℕ
download_chunk_size = 16384

-- What `do_request` returns and what `arg` points at, with the state and the log.
pub record Performed (A : Type 0) : Type 0 where
  pub ret : ℕ
  pub arg : A
  pub state : HttpState
  pub log : TlsLog

abbrev pub size_of_body : Option Bytes → ℕ
size_of_body none = 0
size_of_body (some body) = length body

abbrev failed_with : (url : Bytes) → (ret errno : ℕ) → Bytes
failed_with url ret errno =
    codes "Request to '"
    ++ (url
        ++ (codes "' failed (0x"
            ++ (hex8 ret ++ (codes ", errno " ++ (decimal_int errno ++ codes ")")))))

abbrev send_message : (secure : Bool) → (url : Bytes) → (ret errno : ℕ) → (bundle : Bytes) → Bytes
send_message true url ret errno bundle =
    failed_with url ret errno
    ++ (codes
          ". With TLS verification on this is usually an untrusted or expired server certificate: add its issuer to "
        ++ (bundle ++ codes ", or turn ssl_verify off."))
send_message false url ret errno bundle = failed_with url ret errno ++ codes "."

module _ {A : Type 0} (lib : HttpLibrary) (invalid_value : ℕ)
    (cb : TlsLog → (req_id status_code : ℕ) → (content_length : Option ℕ) → A → ℕ × A) where
  abbrev pub stopped : ℕ → A → HttpState → TlsLog → Performed A
  stopped ret arg s log = record { ret = ret; arg = arg; state = s; log = log }

  -- the call that closes a handle, whose result does not matter
  abbrev pub closing : TlsCall → Performed A → Performed A
  closing call r = record r { log = call ∷ r.log }

  call_back : (req_id status_code : ℕ) → Option ℕ → A → HttpState → TlsLog → Performed A
  call_back req_id status_code content_length arg s log =
      let (ret, after) = cb log req_id status_code content_length arg in stopped ret after s log

  with_status : (req_id status_code : ℕ) → A → HttpState → TlsLog → Performed A
  unfolding call_back
  with_status req_id status_code arg s log =
      let call = TlsCall.get_content_length req_id in
      let ret = lib.ret log call in
      if is_good_status status_code
      then (if not (ret == 0)
          then stopped ret arg s (call ∷ log)
          else call_back req_id status_code (lib.content_length log req_id) arg s (call ∷ log))
      else call_back req_id status_code none arg s log

  get_status : ℕ → A → HttpState → TlsLog → Performed A
  unfolding with_status
  get_status req_id arg s log =
      let call = TlsCall.get_status_code req_id in
      let ret = lib.ret log call in
      if is_negative ret
      then stopped ret arg s (call ∷ log)
      else with_status req_id (lib.status_code log req_id) arg s (call ∷ log)

  -- after `sceHttpSendRequest` has failed
  not_sent : (req_id ret : ℕ) → (url : Bytes) → SslVerify → A → HttpState → TlsLog → Performed A
  not_sent req_id ret url mode arg s log =
      let call = TlsCall.get_last_errno req_id in
      let errno = if lib.ret log call == 0 then lib.last_errno log req_id else 0 in
      let secure = is_on mode && starts_with url (codes "https://") in
      stopped ret arg (set_last_error (send_message secure url ret errno s.ca_bundle_path) s)
        (call ∷ log)

  send_out :
      (req_id : ℕ) → (url : Bytes) → Option Bytes → SslVerify → A → HttpState → TlsLog → Performed A
  unfolding not_sent get_status
  send_out req_id url body mode arg s log =
      let call = TlsCall.send_request req_id body in
      let ret = lib.ret log call in
      if not (ret == 0)
      then not_sent req_id ret url mode arg s (call ∷ log)
      else get_status req_id arg s (call ∷ log)

  -- the loop over the headers, and the sending after it
  add_headers :
      (req_id : ℕ)
      → (url : Bytes) → Option Bytes
      → SslVerify
      → List (Bytes × Bytes)
      → A
      → HttpState
      → TlsLog
      → Performed A
  unfolding send_out
  add_headers req_id url body mode [] arg s log = send_out req_id url body mode arg s log
  add_headers req_id url body mode ((name, value) ∷ headers) arg s log =
      let call = TlsCall.add_request_header req_id name value in
      let ret = lib.ret log call in
      let rest = add_headers req_id url body mode headers arg s (call ∷ log) in
      if not (ret == 0) then stopped ret arg s (call ∷ log) else rest

  on_connection :
      (conn_id method : ℕ)
      → (url : Bytes) → Option Bytes
      → SslVerify
      → List (Bytes × Bytes)
      → A
      → HttpState
      → TlsLog
      → Performed A
  unfolding add_headers
  on_connection conn_id method url body mode headers arg s log =
      let call = TlsCall.create_request conn_id method url (size_of_body body) in
      let req_id = lib.ret log call in
      if is_negative req_id
      then stopped req_id arg s (call ∷ log)
      else closing (TlsCall.delete_request req_id)
          (add_headers req_id url body mode headers arg s (call ∷ log))

  on_template :
      (tpl_id method : ℕ)
      → (url : Bytes) → Option Bytes
      → SslVerify
      → List (Bytes × Bytes)
      → A
      → HttpState
      → TlsLog
      → Performed A
  unfolding on_connection
  on_template tpl_id method url body mode headers arg s log =
      let call = TlsCall.create_connection tpl_id url in
      let conn_id = lib.ret log call in
      if is_negative conn_id
      then stopped conn_id arg s (call ∷ log)
      else closing (TlsCall.delete_connection conn_id)
          (on_connection conn_id method url body mode headers arg s (call ∷ log))

  -- from `apply_ssl_options` on
  with_options :
      (tpl_id method : ℕ)
      → (url : Bytes) → Option Bytes
      → SslVerify
      → List (Bytes × Bytes)
      → A
      → HttpState
      → TlsLog
      → Performed A
  unfolding on_template
  with_options tpl_id method url body mode headers arg s log =
      let applied = apply_ssl_options lib.ret tpl_id url mode s log in
      if not applied.status
      then stopped invalid_value arg applied.state applied.log
      else on_template tpl_id method url body mode headers arg applied.state applied.log

  on_context :
      (method : ℕ)
      → (url : Bytes) → Option Bytes
      → SslVerify
      → List (Bytes × Bytes)
      → A
      → HttpState
      → TlsLog
      → Performed A
  unfolding with_options
  on_context method url body mode headers arg s log =
      let call = TlsCall.create_template s.libhttp_ctx_id in
      let tpl_id = lib.ret log call in
      if is_negative tpl_id
      then stopped tpl_id arg s (call ∷ log)
      else closing (TlsCall.delete_template tpl_id)
          (with_options tpl_id method url body mode headers arg s (call ∷ log))

  -- `body` is `data` with its size, `headers` the pairs of the array; the callback is not null
  unfoldable pub do_request :
      (url : Option Bytes)
      → (method : ℕ) → (body : Option Bytes) → List (Bytes × Bytes)
      → A
      → SslVerify
      → HttpState
      → TlsLog
      → Performed A
  unfolding on_context
  do_request none method body headers arg mode s log =
      stopped invalid_value arg (http_clear_last_error s) log
  do_request (some url) method body headers arg mode s log =
      on_context method url body (resolve_verify mode s) headers arg (http_clear_last_error s) log
