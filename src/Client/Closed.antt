-- ===== src/Client/Closed.antt =====
-- The handles of the console's HTTP library: templates, the connections made of them, and the
-- requests made on these. The calls of the log are replayed on a stack of the handles that are open.
use ps4rpi.Prelude.{
  ℕ, ◌+◌, ◌≡◌, refl, ◌∙◌, ap, Bool, true, false, not, Bool-cases, inl, inr, Option, none, some,
  List, [], ◌∷◌, if◌then◌else◌, ◌==◌, Bytes, arith,
}
use ps4rpi.Console.{is_negative}
use ps4rpi.Download.{is_good_status}
use ps4rpi.Tls.{
  SslVerify, verify_default, verify_off, verify_on, TlsCall, TlsLog, HttpState, HttpResult,
  http_clear_last_error,
}
use ps4rpi.Tls.Options.{ssl_server_checks, client_verify, resolve_verify, apply_ssl_options}
use ps4rpi.Client.{
  HttpLibrary, Performed, call_back, with_status, get_status, not_sent, send_out, add_headers,
  on_connection, on_template, with_options, on_context, do_request, size_of_body,
}

pub data Handle : Type 0 where
  tpl conn req : ℕ → Handle

abbrev same : Handle → Handle → Bool
same (tpl a) (tpl b) = a == b
same (conn a) (conn b) = a == b
same (req a) (req b) = a == b
same _ _ = false

abbrev is_top : Handle → List Handle → Bool
is_top h [] = false
is_top h (g ∷ hs) = same h g

abbrev rest_of : List Handle → List Handle
rest_of [] = []
rest_of (h ∷ hs) = hs

abbrev used : Handle → List Handle → List Handle → Option (List Handle)
used h hs after = if is_top h hs then some after else none

-- a call that returns a handle, or a negative code
abbrev opened : (ℕ → Handle) → ℕ → List Handle → List Handle
opened kind ret hs = if is_negative ret then hs else kind ret ∷ hs

-- A call is in order if the handle that it is made on is the last one opened and still open. It gives
-- the handles that are open after it.
abbrev effect : TlsCall → (ret : ℕ) → List Handle → Option (List Handle)
effect (TlsCall.create_template ctx) ret hs = some (opened tpl ret hs)
effect (TlsCall.disable_option t flags) ret hs = used (tpl t) hs hs
effect (TlsCall.enable_option t flags) ret hs = used (tpl t) hs hs
effect (TlsCall.create_connection t url) ret hs = used (tpl t) hs (opened conn ret hs)
effect (TlsCall.create_request c m url n) ret hs = used (conn c) hs (opened req ret hs)
effect (TlsCall.add_request_header q n v) ret hs = used (req q) hs hs
effect (TlsCall.send_request q body) ret hs = used (req q) hs hs
effect (TlsCall.get_last_errno q) ret hs = used (req q) hs hs
effect (TlsCall.get_status_code q) ret hs = used (req q) hs hs
effect (TlsCall.get_content_length q) ret hs = used (req q) hs hs
effect (TlsCall.delete_request q) ret hs = used (req q) hs (rest_of hs)
effect (TlsCall.delete_connection c) ret hs = used (conn c) hs (rest_of hs)
effect (TlsCall.delete_template t) ret hs = used (tpl t) hs (rest_of hs)
effect _ ret hs = some hs

abbrev after_call : TlsCall → (ret : ℕ) → Option (List Handle) → Option (List Handle)
after_call c ret none = none
after_call c ret (some hs) = effect c ret hs

same_refl : (n : ℕ) → (n == n) ≡ true
same_refl n = ground arith

module _ (lib : HttpLibrary) where
  -- the handles that are open, the last one first; none if a call was out of order
  abbrev pub open_handles : TlsLog → Option (List Handle)
  open_handles [] = some []
  open_handles (c ∷ log) = after_call c (lib.ret log c) (open_handles log)

  -- After the calls of the log, these are open.
  pub record IsOpen (log : TlsLog) (hs : List Handle) : Type 0 where
    pub are : open_handles log ≡ some hs

  -- a call on the handle that is on top
  on_top :
      {q : Handle} {hs after : List Handle} (log : TlsLog) (c : TlsCall)
      → IsOpen log (q ∷ hs)
      → effect c (lib.ret log c) (q ∷ hs) ≡ some after
      → IsOpen (c ∷ log) after
  on_top log c o e = record { are = ap (after_call c (lib.ret log c)) o.are ∙ e }

  module _ {A : Type 0} (invalid_value : ℕ)
      (cb : TlsLog → (req_id status_code : ℕ) → (content_length : Option ℕ) → A → ℕ × A) where
    -- A stage leaves open what was open before it.
    pub record Closes (hs : List Handle) (r : Performed A) : Type 0 where
      pub left : IsOpen r.log hs

    if-Closes :
        {hs : List Handle} {x y : Performed A} (b : Bool)
        → Closes hs x
        → Closes hs y
        → Closes hs (if b then x else y)
    if-Closes true h g = h
    if-Closes false h g = g

    module _ (hs : List Handle) (q : ℕ) where
      on_request :
          (log : TlsLog) (c : TlsCall)
          → IsOpen log (req q ∷ hs)
          → effect c (lib.ret log c) (req q ∷ hs) ≡ used (req q) (req q ∷ hs) (req q ∷ hs)
          → IsOpen (c ∷ log) (req q ∷ hs)
      on_request log c o e = on_top log c o (e ∙ rw (same_refl q))

      status-Closes :
          (code : ℕ) (arg : A) (s : HttpState) (log : TlsLog)
          → IsOpen log (req q ∷ hs)
          → Closes (req q ∷ hs) (with_status lib invalid_value cb q code arg s log)
      unfolding with_status call_back
      status-Closes code arg s log o =
          let o1 = on_request log (TlsCall.get_content_length q) o refl in
          if-Closes (is_good_status code)
            (if-Closes (not (lib.ret log (TlsCall.get_content_length q) == 0))
              (record { left = o1 }) (record { left = o1 }))
            (record { left = o })

      send-Closes :
          (url : Bytes) (body : Option Bytes) (mode : SslVerify) (arg : A) (s : HttpState)
          (log : TlsLog)
          → IsOpen log (req q ∷ hs)
          → Closes (req q ∷ hs) (send_out lib invalid_value cb q url body mode arg s log)
      unfolding send_out not_sent get_status
      send-Closes url body mode arg s log o =
          let c = TlsCall.send_request q body in
          let o1 = on_request log c o refl in
          let o2 = on_request (c ∷ log) (TlsCall.get_last_errno q) o1 refl in
          let o3 = on_request (c ∷ log) (TlsCall.get_status_code q) o1 refl in
          if-Closes (not (lib.ret log c == 0)) (record { left = o2 })
            (if-Closes (is_negative (lib.ret (c ∷ log) (TlsCall.get_status_code q)))
              (record { left = o3 }) (status-Closes _ arg s _ o3))

      headers-Closes :
          (url : Bytes) (body : Option Bytes) (mode : SslVerify) (headers : List (Bytes × Bytes))
          (arg : A) (s : HttpState) (log : TlsLog)
          → IsOpen log (req q ∷ hs)
          → Closes (req q ∷ hs) (add_headers lib invalid_value cb q url body mode headers arg s log)
      unfolding add_headers
      headers-Closes url body mode [] arg s log o = send-Closes url body mode arg s log o
      headers-Closes url body mode ((name, value) ∷ headers) arg s log o =
          let c = TlsCall.add_request_header q name value in
          let o1 = on_request log c o refl in
          if-Closes (not (lib.ret log c == 0)) (record { left = o1 })
            (headers-Closes url body mode headers arg s (c ∷ log) o1)

    -- a handle that is closed again, whatever the stage in between did
    closing-Closes :
        {hs : List Handle} (h : Handle) (call : TlsCall) (r : Performed A)
        → ((ret : ℕ) → effect call ret (h ∷ hs) ≡ some hs)
        → Closes (h ∷ hs) r
        → Closes hs (record r { log = call ∷ r.log })
    closing-Closes h call r e o = record { left = on_top r.log call o.left (e _) }

    connection-Closes :
        (hs : List Handle) (c method : ℕ) (url : Bytes) (body : Option Bytes) (mode : SslVerify)
        (headers : List (Bytes × Bytes)) (arg : A) (s : HttpState) (log : TlsLog)
        → IsOpen log (conn c ∷ hs)
        → Closes
            (conn c ∷ hs)
            (on_connection lib invalid_value cb c method url body mode headers arg s log)
    unfolding on_connection
    connection-Closes hs c method url body mode headers arg s log o =
        let call = TlsCall.create_request c method url (size_of_body body) in
        elim (Bool-cases (is_negative (lib.ret log call))) [
          | inl bad ↦ rw bad (record { left = on_top log call o (rw (same_refl c, bad)) })
          | inr good ↦ rw good (
              closing-Closes (req (lib.ret log call)) _ _ (λ ret. rw (same_refl (lib.ret log call)))
                (headers-Closes (conn c ∷ hs) (lib.ret log call) url body mode headers arg s
                  (call ∷ log) (on_top log call o (rw (same_refl c, good)))))
        ]

    template-Closes :
        (hs : List Handle) (t method : ℕ) (url : Bytes) (body : Option Bytes) (mode : SslVerify)
        (headers : List (Bytes × Bytes)) (arg : A) (s : HttpState) (log : TlsLog)
        → IsOpen log (tpl t ∷ hs)
        → Closes
            (tpl t ∷ hs)
            (on_template lib invalid_value cb t method url body mode headers arg s log)
    unfolding on_template
    template-Closes hs t method url body mode headers arg s log o =
        let call = TlsCall.create_connection t url in
        elim (Bool-cases (is_negative (lib.ret log call))) [
          | inl bad ↦ rw bad (record { left = on_top log call o (rw (same_refl t, bad)) })
          | inr good ↦ rw good (
              closing-Closes (conn (lib.ret log call)) _ _
                (λ ret. rw (same_refl (lib.ret log call)))
                (connection-Closes (tpl t ∷ hs) (lib.ret log call) method url body mode headers arg
                  s (call ∷ log) (on_top log call o (rw (same_refl t, good)))))
        ]

    armed-IsOpen :
        (hs : List Handle) (t : ℕ) (log : TlsLog)
        → IsOpen log (tpl t ∷ hs)
        → IsOpen
            (TlsCall.enable_option t ssl_server_checks
              ∷ TlsCall.disable_option t client_verify
              ∷ log)
            (tpl t ∷ hs)
    armed-IsOpen hs t log o =
        on_top {q = tpl t} {hs = hs} _ (TlsCall.enable_option t ssl_server_checks)
          (on_top {q = tpl t} {hs = hs} log (TlsCall.disable_option t client_verify) o
            (rw (same_refl t)))
          (rw (same_refl t))

    if-IsOpen :
        {hs : List Handle} (x y : HttpResult) (b : Bool)
        → IsOpen x.log hs
        → IsOpen y.log hs
        → IsOpen (if b then x else y).log hs
    if-IsOpen x y true h g = h
    if-IsOpen x y false h g = g

    -- the options are set on the template
    options-IsOpen :
        (hs : List Handle) (t : ℕ) (url : Bytes) (mode : SslVerify) (s : HttpState) (log : TlsLog)
        → IsOpen log (tpl t ∷ hs)
        → IsOpen (apply_ssl_options lib.ret t url mode s log).log (tpl t ∷ hs)
    unfolding apply_ssl_options
    options-IsOpen hs t url verify_off s log o =
        on_top log (TlsCall.disable_option t (ssl_server_checks + client_verify)) o
          (rw (same_refl t))
    options-IsOpen hs t url verify_default s log o =
        if-IsOpen _ _ _ (armed-IsOpen hs t log o) (armed-IsOpen hs t log o)
    options-IsOpen hs t url verify_on s log o =
        if-IsOpen _ _ _ (armed-IsOpen hs t log o) (armed-IsOpen hs t log o)

    options-Closes :
        (hs : List Handle) (t method : ℕ) (url : Bytes) (body : Option Bytes) (mode : SslVerify)
        (headers : List (Bytes × Bytes)) (arg : A) (s : HttpState) (log : TlsLog)
        → IsOpen log (tpl t ∷ hs)
        → Closes
            (tpl t ∷ hs)
            (with_options lib invalid_value cb t method url body mode headers arg s log)
    unfolding with_options
    options-Closes hs t method url body mode headers arg s log o =
        let o1 = options-IsOpen hs t url mode s log o in
        if-Closes (not (apply_ssl_options lib.ret t url mode s log).status) (record { left = o1 })
          (template-Closes hs t method url body mode headers arg _ _ o1)

    -- Whatever becomes of a request, every call of it is made on the handle opened last, which is
    -- still open, and the handles that are open after it are those open before it: the template, the
    -- connection and the request are each closed once, in the reverse order.
    pub do_request-Closes :
        (hs : List Handle) (url : Option Bytes) (method : ℕ) (body : Option Bytes)
        (headers : List (Bytes × Bytes)) (arg : A) (mode : SslVerify) (s : HttpState) (log : TlsLog)
        → IsOpen log hs
        → Closes hs (do_request lib invalid_value cb url method body headers arg mode s log)
    unfolding do_request on_context
    do_request-Closes hs none method body headers arg mode s log o = record { left = o }
    do_request-Closes hs (some url) method body headers arg mode s log o =
        let call = TlsCall.create_template s.libhttp_ctx_id in
        elim (Bool-cases (is_negative (lib.ret log call))) [
          | inl bad ↦ rw bad (record {
            left = record { are = ap (after_call call (lib.ret log call)) o.are ∙ rw bad };
          })
          | inr good ↦ rw good (
              closing-Closes (tpl (lib.ret log call)) _ _ (λ ret. rw (same_refl (lib.ret log call)))
                (options-Closes hs (lib.ret log call) method url body (resolve_verify mode s)
                  headers arg (http_clear_last_error s) (call ∷ log)
                  (record { are = ap (after_call call (lib.ret log call)) o.are ∙ rw good })))
        ]
