-- ===== src/Settings/Explicit.antt =====
-- Verification of servers is turned off by an explicit request, and by nothing else.
use ps4rpi.Prelude.{
  ◌≡◌, ◌≢◌, ◌⊎◌, inl, inr, refl, sym, ap, ◌∙◌, Bool, true, false, not, ◌&&◌, Bool-cases, Option,
  none, some, [], if◌then◌else◌, Bytes, codes, arith,
}
use ps4rpi.Http.{JsonEscape}
use ps4rpi.Request.{
  JsonType, Json, json_pool_size, Parsed, parsed, answered, request_parse, request_str,
}
use ps4rpi.Request.Refusals.{Ensures, HasField, request_parse-Ensures, request_bool_opt-Ensures}
use ps4rpi.Files.{Source, Sink}
use ps4rpi.Dispatch.{str_case_eq}
use ps4rpi.Tls.{
  SslVerify, verify_off, verify_on, TlsLog, TlsLibrary, HttpState, http_set_ssl_verify, is_on,
  on_or_off, BundlePath, http_load_ca_bundle,
}
use ps4rpi.Tls.Bundle.{http_load_ca_bundle-mode}
use ps4rpi.Tls.Config.{http_save_config, is_saved}
use ps4rpi.Settings.{
  Settled, is_blank, save, load_bundle, bundle_member, settle, settle_root, handle_api_settings,
}

module _ {Node : Type 0} (json : Json Node) (np_escape : JsonEscape) (tls : TlsLibrary)
    (files : Bytes → Source) (sink : Sink) where
  if-Settled :
      (b : Bool) (x y : Settled) (mode : SslVerify)
      → x.state.ssl_verify_mode ≡ mode
      → y.state.ssl_verify_mode ≡ mode
      → (if b then x else y).state.ssl_verify_mode ≡ mode
  if-Settled true x y mode hx hy = hx
  if-Settled false x y mode hx hy = hy

  save-mode :
      (s : HttpState) (log : TlsLog)
      → (save json np_escape tls files sink s log).state.ssl_verify_mode ≡ s.ssl_verify_mode
  unfolding save
  save-mode s log =
      if-Settled (not (is_saved (http_save_config np_escape sink s))) _ _ s.ssl_verify_mode refl
        refl

  load_bundle-mode :
      (m : Parsed Bytes) (s : HttpState) (log : TlsLog)
      → (load_bundle json np_escape tls files sink m s log).state.ssl_verify_mode
        ≡ s.ssl_verify_mode
  unfolding load_bundle
  load_bundle-mode (answered reply) s log = refl
  load_bundle-mode (parsed path) s log =
      let kept = http_load_ca_bundle-mode tls files (BundlePath.given path) s log in
      if-Settled (not (http_load_ca_bundle tls files (BundlePath.given path) s log).status) _ _
        s.ssl_verify_mode kept (save-mode _ _ ∙ kept)

  bundle_member-mode :
      (root : Node) (o : Option Node) (s : HttpState) (log : TlsLog)
      → (bundle_member json np_escape tls files sink root o s log).state.ssl_verify_mode
        ≡ s.ssl_verify_mode
  unfolding bundle_member
  bundle_member-mode root none s log = save-mode s log
  bundle_member-mode root (some field) s log =
      load_bundle-mode (request_str json np_escape s.http_initialized root (codes "ca_bundle")) s
        log

  -- The request has the switch, and it is false.
  abbrev pub IsTurnedOff : Bool → Node → Type 0
  IsTurnedOff http_initialized root =
      (field : Node) × HasField json np_escape http_initialized root (codes "ssl_verify")
        JsonType.boolean field
      × (json.get_boolean field ≡ false)

  on_not_off : verify_on ≢ verify_off
  on_not_off e = ground arith

  set-off :
      (b : Bool) (s : HttpState)
      → (http_set_ssl_verify (on_or_off b) s).ssl_verify_mode ≡ verify_off
      → b ≡ false
  unfolding http_set_ssl_verify
  set-off true s e = absurd (on_not_off e)
  set-off false s e = refl

  -- so for the body of the request
  abbrev pub IsOffRequest : Bool → Option Bytes → Type 0
  IsOffRequest http_initialized in_data =
      (body : Bytes) × (root : Node) × (in_data ≡ some body)
      × (json.create body json_pool_size ≡ some root)
      × IsTurnedOff http_initialized root

  asked-IsTurnedOff :
      (root : Node) (b : Bool) (s : HttpState)
      → s.ssl_verify_mode ≡ verify_on
      → ((json.get_property root (codes "ssl_verify") ≡ none) × (b ≡ is_on s.ssl_verify_mode))
        ⊎ ((field : Node) × HasField json np_escape s.http_initialized root
              (codes "ssl_verify")
              JsonType.boolean
              field
            × (b ≡ json.get_boolean field))
      → b ≡ false
      → IsTurnedOff s.http_initialized root
  asked-IsTurnedOff root b s on (inl (absent, same)) off =
      let h : is_on s.ssl_verify_mode ≡ true = ap is_on on in cc
  asked-IsTurnedOff root b s on (inr (field, has, same)) off = (field, has, sym same ∙ off)

  reported-mode :
      (method : Bytes) (in_data : Option Bytes) (s : HttpState) (log : TlsLog)
      → str_case_eq method (codes "GET") && is_blank in_data ≡ true
      → s.ssl_verify_mode
        ≡ (handle_api_settings json np_escape tls files sink method in_data s
            log).state.ssl_verify_mode
  unfolding handle_api_settings
  reported-mode method in_data s log h = rw h refl

  settled-mode :
      (method : Bytes) (in_data : Option Bytes) (s : HttpState) (log : TlsLog)
      → str_case_eq method (codes "GET") && is_blank in_data ≡ false
      → (handle_api_settings json np_escape tls files sink method in_data s
          log).state.ssl_verify_mode
        ≡ (settle_root json np_escape tls files sink
            (request_parse json np_escape s.http_initialized in_data)
            s
            log).state.ssl_verify_mode
  unfolding handle_api_settings
  settled-mode method in_data s log h = rw h refl

  settle-IsTurnedOff :
      (root : Node) (m : Parsed Bool) (s : HttpState) (log : TlsLog)
      → s.ssl_verify_mode ≡ verify_on
      → Ensures
          (λ b.
            ((json.get_property root (codes "ssl_verify") ≡ none) × (b ≡ is_on s.ssl_verify_mode))
            ⊎ ((field : Node) × HasField json np_escape s.http_initialized root
                  (codes "ssl_verify")
                  JsonType.boolean
                  field
                × (b ≡ json.get_boolean field)))
          m
      → (settle json np_escape tls files sink root m s log).state.ssl_verify_mode ≡ verify_off
      → IsTurnedOff s.http_initialized root
  unfolding settle http_set_ssl_verify
  settle-IsTurnedOff root (answered reply) s log on h off = absurd (on_not_off (sym on ∙ off))
  settle-IsTurnedOff root (parsed b) s log on h off =
      let kept =
        bundle_member-mode root (json.get_property root (codes "ca_bundle"))
          (http_set_ssl_verify (on_or_off b) s) log in
      asked-IsTurnedOff root b s on h (set-off b s (sym kept ∙ off))

  root-IsTurnedOff :
      (in_data : Option Bytes) (m : Parsed Node) (s : HttpState) (log : TlsLog)
      → s.ssl_verify_mode ≡ verify_on
      → Ensures
          (λ root.
            (body : Bytes) × (in_data ≡ some body)
            × (body ≢ [])
            × (json.create body json_pool_size ≡ some root))
          m
      → (settle_root json np_escape tls files sink m s log).state.ssl_verify_mode ≡ verify_off
      → IsOffRequest s.http_initialized in_data
  unfolding settle_root
  root-IsTurnedOff in_data (answered reply) s log on h off = absurd (on_not_off (sym on ∙ off))
  root-IsTurnedOff in_data (parsed root) s log on (body, there, nonempty, tree) off = (
    body,
    root,
    there,
    tree,
    settle-IsTurnedOff root _ s log on
        (request_bool_opt-Ensures json np_escape s.http_initialized root (codes "ssl_verify")
          (is_on s.ssl_verify_mode))
        off,
  )

  -- Where verification is on before a request to the settings and off after it, the body of the
  -- request is an object whose "ssl_verify" is the boolean false, whatever the method and whatever
  -- else was asked or failed.
  pub handle_api_settings-IsOffRequest :
      (method : Bytes) (in_data : Option Bytes) (s : HttpState) (log : TlsLog)
      → s.ssl_verify_mode ≡ verify_on
      → (handle_api_settings json np_escape tls files sink method in_data s
          log).state.ssl_verify_mode
        ≡ verify_off
      → IsOffRequest s.http_initialized in_data
  handle_api_settings-IsOffRequest method in_data s log on off =
      elim (Bool-cases (str_case_eq method (codes "GET") && is_blank in_data)) [
        | inl report ↦
            absurd (on_not_off (sym on ∙ reported-mode method in_data s log report ∙ off))
        | inr change ↦
            root-IsTurnedOff in_data (request_parse json np_escape s.http_initialized in_data) s log
              on (request_parse-Ensures json np_escape s.http_initialized in_data)
              (sym (settled-mode method in_data s log change) ∙ off)
      ]
