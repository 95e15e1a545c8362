-- ===== src/Tls/Bundle.antt =====
-- The bundle of trusted roots: what is registered with the HTTP library is what the program holds.
use ps4rpi.Prelude.{
  ℕ, ◌≡◌, ◌⊎◌, inl, inr, refl, Bool, true, false, not, Bool-cases, Option, none, some, List, [],
  ◌∷◌, if◌then◌else◌, ◌==◌, Bytes,
}
use ps4rpi.Files.{Source, read_text_file}
use ps4rpi.Tls.{
  TlsCall, TlsLog, TlsLibrary, HttpState, HttpResult, ca_bundle_max_size, BundlePath, path_of,
  keep_path, unload_ca_bundle, register_bundle, load_text, load_path, http_load_ca_bundle,
}

module _ (tls : TlsLibrary) where
  -- the buffers that the HTTP library refers to
  abbrev pub registered : TlsLog → List Bytes
  registered [] = []
  registered (TlsCall.load_cert ctx text ∷ log) =
      if tls log (TlsCall.load_cert ctx text) == 0 then text ∷ registered log else registered log
  registered (TlsCall.unload_cert ctx ∷ log) =
      if tls log (TlsCall.unload_cert ctx) == 0 then [] else registered log
  registered (_ ∷ log) = registered log

  -- Unloading does not fail.
  abbrev pub IsUnloading : Type 0
  IsUnloading = (log : TlsLog) (ctx : ℕ) → tls log (TlsCall.unload_cert ctx) ≡ 0

  -- The HTTP library refers to the one buffer that the program holds, or to none and it holds none.
  abbrev pub IsHeld : HttpState → TlsLog → Type 0
  IsHeld s log =
      ((s.ca_bundle_loaded ≡ false) × (s.ca_bundle_data ≡ none) × (registered log ≡ []))
      ⊎ ((text : Bytes) × (s.ca_bundle_loaded ≡ true)
          × (s.ca_bundle_data ≡ some text)
          × (registered log ≡ text ∷ []))

  -- so after a call
  pub record Keeps (r : HttpResult) : Type 0 where
    pub held : IsHeld r.state r.log

  pub if-Keeps : {x y : HttpResult} (b : Bool) → Keeps x → Keeps y → Keeps (if b then x else y)
  if-Keeps true hx hy = hx
  if-Keeps false hx hy = hy

  keep_path-IsHeld :
      (which : BundlePath) (s : HttpState) (log : TlsLog)
      → IsHeld s log
      → IsHeld (keep_path which s) log
  keep_path-IsHeld BundlePath.null s log h = h
  keep_path-IsHeld BundlePath.own s log h = h
  keep_path-IsHeld (BundlePath.given path) s log h = h

  module _ (unloads : IsUnloading) where
    -- after unloading nothing is registered
    pub unload-IsHeld :
        (s : HttpState) (log : TlsLog)
        → IsHeld s log
        → let r = unload_ca_bundle tls s log in
          (r.state.ca_bundle_loaded ≡ false)
          × (r.state.ca_bundle_data ≡ none)
          × (registered r.log ≡ [])
    unfolding unload_ca_bundle
    unload-IsHeld s log (inl (idle, nothing, clean)) = rw (idle, clean) (refl, refl, refl)
    unload-IsHeld s log (inr (text, loaded, held, one)) =
        rw (loaded, unloads log s.libhttp_ctx_id) (refl, refl, refl)

    register-IsHeld :
        (which : BundlePath) (path text : Bytes) (s : HttpState) (log : TlsLog)
        → s.ca_bundle_loaded ≡ false
        → registered log ≡ []
        → Keeps (register_bundle tls which path text s log)
    unfolding register_bundle
    register-IsHeld which path text s log idle clean =
        elim (Bool-cases (tls log (TlsCall.load_cert s.libhttp_ctx_id text) == 0)) [
          | inl good ↦ rw good (record {
            held =
                keep_path-IsHeld which
                  (record s { ca_bundle_data = some text; ca_bundle_loaded = true })
                  (TlsCall.load_cert s.libhttp_ctx_id text ∷ log)
                  (inr (text, refl, refl, rw (good, clean) refl));
          })
          | inr bad ↦ rw bad (record { held = inl (idle, refl, rw (bad, clean) refl) })
        ]

    text-IsHeld :
        (which : BundlePath) (path : Bytes) (o : Option Bytes) (s : HttpState) (log : TlsLog)
        → IsHeld s log
        → Keeps (load_text tls which path o s log)
    unfolding load_text
    text-IsHeld which path none s log h = record { held = h }
    text-IsHeld which path (some []) s log h = record { held = h }
    text-IsHeld which path (some (c ∷ text)) s log h =
        let (idle, _, clean) = unload-IsHeld s log h in
        register-IsHeld which path (c ∷ text) (unload_ca_bundle tls s log).state
          (unload_ca_bundle tls s log).log idle clean

    path-IsHeld :
        (which : BundlePath) (files : Bytes → Source) (path : Bytes) (s : HttpState) (log : TlsLog)
        → IsHeld s log
        → Keeps (load_path tls which files path s log)
    unfolding load_path
    path-IsHeld which files [] s log h = record { held = h }
    path-IsHeld which files (c ∷ path) s log h =
        text-IsHeld which (c ∷ path) (read_text_file (files (c ∷ path)) ca_bundle_max_size) s log h

    -- Loading a bundle, whether it succeeds or not, leaves registered with the HTTP library the one
    -- buffer that the program holds, or none when it holds none, where that was so before and
    -- unloading does not fail.
    pub http_load_ca_bundle-IsHeld :
        (files : Bytes → Source) (which : BundlePath) (s : HttpState) (log : TlsLog)
        → IsHeld s log
        → Keeps (http_load_ca_bundle tls files which s log)
    unfolding http_load_ca_bundle
    http_load_ca_bundle-IsHeld files which s log h =
        if-Keeps (not s.http_initialized) (record { held = h })
          (path-IsHeld which files (path_of which s) s log h)

  if-mode :
      (b : Bool) (x y : HttpResult) (s : HttpState)
      → x.state.ssl_verify_mode ≡ s.ssl_verify_mode
      → y.state.ssl_verify_mode ≡ s.ssl_verify_mode
      → (if b then x else y).state.ssl_verify_mode ≡ s.ssl_verify_mode
  if-mode true x y s hx hy = hx
  if-mode false x y s hx hy = hy

  keep_path-mode :
      (which : BundlePath) (s : HttpState) → (keep_path which s).ssl_verify_mode ≡ s.ssl_verify_mode
  keep_path-mode BundlePath.null s = refl
  keep_path-mode BundlePath.own s = refl
  keep_path-mode (BundlePath.given path) s = refl

  register-mode :
      (which : BundlePath) (path text : Bytes) (s : HttpState) (log : TlsLog)
      → (register_bundle tls which path text s log).state.ssl_verify_mode ≡ s.ssl_verify_mode
  unfolding register_bundle
  register-mode which path text s log =
      elim (Bool-cases (tls log (TlsCall.load_cert s.libhttp_ctx_id text) == 0)) [
        | inl good ↦ rw good (
            keep_path-mode which (record s { ca_bundle_data = some text; ca_bundle_loaded = true }))
        | inr bad ↦ rw bad refl
      ]

  text-mode :
      (which : BundlePath) (path : Bytes) (o : Option Bytes) (s : HttpState) (log : TlsLog)
      → (load_text tls which path o s log).state.ssl_verify_mode ≡ s.ssl_verify_mode
  unfolding load_text unload_ca_bundle
  text-mode which path none s log = refl
  text-mode which path (some []) s log = refl
  text-mode which path (some (c ∷ text)) s log =
      register-mode which path (c ∷ text) (unload_ca_bundle tls s log).state
        (unload_ca_bundle tls s log).log

  path-mode :
      (which : BundlePath) (files : Bytes → Source) (path : Bytes) (s : HttpState) (log : TlsLog)
      → (load_path tls which files path s log).state.ssl_verify_mode ≡ s.ssl_verify_mode
  unfolding load_path
  path-mode which files [] s log = refl
  path-mode which files (c ∷ path) s log =
      text-mode which (c ∷ path) (read_text_file (files (c ∷ path)) ca_bundle_max_size) s log

  -- Loading a bundle leaves the policy alone.
  pub http_load_ca_bundle-mode :
      (files : Bytes → Source) (which : BundlePath) (s : HttpState) (log : TlsLog)
      → (http_load_ca_bundle tls files which s log).state.ssl_verify_mode ≡ s.ssl_verify_mode
  unfolding http_load_ca_bundle
  http_load_ca_bundle-mode files which s log =
      if-mode (not s.http_initialized) _ _ s refl (path-mode which files (path_of which s) s log)
