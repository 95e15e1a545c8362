-- ===== src/Tls/Config/Up.antt =====
-- Whether the HTTP client is initialised, after its start.
use ps4rpi.Prelude.{
  ℕ, ◌≡◌, ◌∙◌, refl, inl, inr, Bool, true, false, not, Bool-cases, Option, none, some, [], ◌∷◌,
  if◌then◌else◌, if-case, if-fails, ap, Bytes, ◌==◌,
}
use ps4rpi.Console.{is_negative}
use ps4rpi.Files.{Source, read_text_file}
use ps4rpi.Request.{Json, JsonType, same_type}
use ps4rpi.Tls.{
  config_path, config_max_size, TlsCall, TlsLog, TlsLibrary, HttpState, HttpResult, BundlePath,
  unload_ca_bundle, register_bundle, load_text, load_path, http_load_ca_bundle,
}
use ps4rpi.Tls.Config.{
  verify_member, path_member, load_root, load_config_text, http_load_config, load_at_start,
  init_http, init_ssl, http_init,
}

abbrev IsSame : HttpState → HttpState → Type 0
IsSame s s' = s'.http_initialized ≡ s.http_initialized

-- What a start returns is whether the client is initialised after it.
pub record Answers (r : HttpResult) : Type 0 where
  pub answers : r.state.http_initialized ≡ r.status

if-Answers : (b : Bool) {x y : HttpResult} → Answers x → Answers y → Answers (if b then x else y)
if-Answers true h k = h
if-Answers false h k = k

-- the first branch is taken only where the test holds
if-Answers_known :
    (b : Bool) {x y : HttpResult}
    → (b ≡ true → Answers x)
    → (b ≡ false → Answers y)
    → Answers (if b then x else y)
if-Answers_known true h k = h refl
if-Answers_known false h k = k refl

-- The client is initialised or not, as before.
record Leaves (s : HttpState) (r : HttpResult) : Type 0 where
  pub same : IsSame s r.state

if-Leaves :
    (b : Bool) {s : HttpState} {x y : HttpResult}
    → Leaves s x
    → Leaves s y
    → Leaves s (if b then x else y)
if-Leaves true h k = h
if-Leaves false h k = k

module _ {Node : Type 0} (json : Json Node) (tls : TlsLibrary) (files : Bytes → Source) where
  verify_member-IsSame : (o : Option Node) (s : HttpState) → IsSame s (verify_member json o s)
  unfolding verify_member
  verify_member-IsSame none s = refl
  verify_member-IsSame (some field) s =
      elim (Bool-cases (same_type (json.get_type field) JsonType.boolean)) [
        | inl same ↦ rw same refl
        | inr other ↦ rw other refl
      ]

  path_member-IsSame : (o : Option Node) (s : HttpState) → IsSame s (path_member json o s)
  unfolding path_member
  path_member-IsSame none s = refl
  path_member-IsSame (some field) s =
      elim (Bool-cases (same_type (json.get_type field) JsonType.text)) [
        | inl same ↦ rw same refl
        | inr other ↦ rw other refl
      ]

  root-IsSame : (o : Option Node) (s : HttpState) → IsSame s (load_root json o s).1
  unfolding load_root
  root-IsSame none s = refl
  root-IsSame (some root) s = path_member-IsSame _ _ ∙ verify_member-IsSame _ s

  config-IsSame : (o : Option Bytes) (s : HttpState) → IsSame s (load_config_text json o s).1
  unfolding load_config_text
  config-IsSame none s = refl
  config-IsSame (some text) s = root-IsSame (json.create text 16) s

  register-IsSame :
      (path text : Bytes) (s : HttpState) (log : TlsLog)
      → IsSame s (register_bundle tls BundlePath.own path text s log).state
  unfolding register_bundle
  register-IsSame path text s log =
      elim (Bool-cases (not (tls log (TlsCall.load_cert s.libhttp_ctx_id text) == 0))) [
        | inl bad ↦ rw bad refl
        | inr good ↦ rw good refl
      ]

  text-IsSame :
      (path : Bytes) (o : Option Bytes) (s : HttpState) (log : TlsLog)
      → IsSame s (load_text tls BundlePath.own path o s log).state
  unfolding load_text unload_ca_bundle
  text-IsSame path none s log = refl
  text-IsSame path (some []) s log = refl
  text-IsSame path (some (c ∷ text)) s log =
      let u = unload_ca_bundle tls s log in register-IsSame path (c ∷ text) u.state u.log

  path-IsSame :
      (path : Bytes) (s : HttpState) (log : TlsLog)
      → IsSame s (load_path tls BundlePath.own files path s log).state
  unfolding load_path
  path-IsSame [] s log = refl
  path-IsSame (c ∷ path) s log = text-IsSame (c ∷ path) _ s log

  bundle-Leaves :
      (s : HttpState) (log : TlsLog) → Leaves s (http_load_ca_bundle tls files BundlePath.own s log)
  unfolding http_load_ca_bundle
  bundle-Leaves s log =
      if-Leaves (not s.http_initialized) (record { same = refl })
        (record { same = path-IsSame s.ca_bundle_path s log })

  start-Answers :
      (s : HttpState) (log : TlsLog)
      → s.http_initialized ≡ true
      → Answers (load_at_start json tls files s log)
  unfolding load_at_start
  start-Answers s log up =
      let same = (bundle-Leaves s log).same ∙ up in
      if-Answers (not (http_load_ca_bundle tls files BundlePath.own s log).status)
        (record { answers = same }) (record { answers = same })

  init_http-Answers :
      (mem_id ssl : ℕ) (s : HttpState) (log : TlsLog)
      → s.http_initialized ≡ false
      → Answers (init_http json tls files mem_id ssl s log)
  unfolding init_http http_load_config
  init_http-Answers mem_id ssl s log down =
      let http = tls log (TlsCall.http_init mem_id ssl) in
      if-Answers (is_negative http) (record { answers = down })
        (start-Answers _ (TlsCall.http_init mem_id ssl ∷ log) (
          config-IsSame (read_text_file (files config_path) config_max_size)
            (record s { libssl_ctx_id = ssl; libhttp_ctx_id = http; http_initialized = true })))

  -- Starting the client answers whether it is initialised afterwards.
  pub http_init-Answers :
      (net_initialized : Bool) (mem_id : ℕ) (s : HttpState) (log : TlsLog)
      → Answers (http_init json tls files net_initialized mem_id s log)
  unfolding http_init init_ssl
  http_init-Answers net_initialized mem_id s log =
      if-Answers_known s.http_initialized (λ up. record { answers = up })
        (λ down.
          if-Answers (not net_initialized) (record { answers = down })
            (if-Answers (is_negative (tls log TlsCall.ssl_init)) (record { answers = down })
              (init_http-Answers mem_id (tls log TlsCall.ssl_init) s (TlsCall.ssl_init ∷ log)
                down)))

  start-succeeds :
      (s : HttpState) (log : TlsLog) → (load_at_start json tls files s log).status ≡ true
  unfolding load_at_start
  start-succeeds s log =
      if-case (λ (r : HttpResult). r.status ≡ true)
        (not (http_load_ca_bundle tls files BundlePath.own s log).status) _ _ (λ bad. refl)
        (λ good. refl)

  -- The start succeeds where the two contexts are made; a bundle or a configuration is not needed.
  pub http_init-succeeds :
      (mem_id : ℕ) (s : HttpState) (log : TlsLog)
      → is_negative (tls log TlsCall.ssl_init) ≡ false
      → is_negative
          (tls (TlsCall.ssl_init ∷ log) (TlsCall.http_init mem_id (tls log TlsCall.ssl_init)))
        ≡ false
      → (http_init json tls files true mem_id s log).status ≡ true
  unfolding http_init init_ssl init_http
  http_init-succeeds mem_id s log ssl http =
      if-case (λ (r : HttpResult). r.status ≡ true) s.http_initialized _ _ (λ up. refl)
        (λ down.
          ap (λ (r : HttpResult). r.status)
            (if-fails (is_negative (tls log TlsCall.ssl_init)) _ _ ssl)
          ∙ (ap (λ (r : HttpResult). r.status)
                (if-fails
                  (is_negative (
                    tls (TlsCall.ssl_init ∷ log)
                      (TlsCall.http_init mem_id (tls log TlsCall.ssl_init))))
                  _ _ http)
              ∙ start-succeeds _ _))
