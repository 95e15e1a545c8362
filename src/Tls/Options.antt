-- ===== src/Tls/Options.antt =====
-- RPI/http.c, `apply_ssl_options`, and the choice of policy at the head of `do_request`.
use ps4rpi.Prelude.{
  ℕ, ◌+◌, ◌≡◌, ◌≢◌, refl, true, false, not, Bool-cases, inl, inr, ◌∷◌, ◌++◌, if◌then◌else◌, ◌==◌,
  ==_iff, Bytes, codes, arith,
}
use ps4rpi.Tls.{
  SslVerify, verify_default, verify_off, verify_on, TlsCall, TlsLog, TlsLibrary, HttpState,
  HttpResult, hex8, failed,
}

-- SSL_SERVER_CHECKS and SCE_HTTPS_FLAG_CLIENT_VERIFY
abbrev pub ssl_server_checks : ℕ
ssl_server_checks = 0x01 + 0x04 + 0x08 + 0x10 + 0x20

abbrev pub client_verify : ℕ
client_verify = 0x02

-- the policy of a request, from its own and from the setting
unfoldable pub resolve_verify : SslVerify → HttpState → SslVerify
resolve_verify verify_off s = verify_off
resolve_verify verify_on s = verify_on
resolve_verify verify_default s = s.ssl_verify_mode

module _ (tls : TlsLibrary) where
  -- both calls of the branch that verifies
  enable_checks : (tpl_id : ℕ) → (url : Bytes) → HttpState → TlsLog → HttpResult
  enable_checks tpl_id url s log =
      let log1 = TlsCall.disable_option tpl_id client_verify ∷ log in
      let call = TlsCall.enable_option tpl_id ssl_server_checks in
      let ret = tls log1 call in
      if not (ret == 0)
      then failed tls
          (codes "Unable to enable TLS verification for '"
            ++ (url ++ (codes "': 0x" ++ (hex8 ret ++ codes "."))))
          s (call ∷ log1)
      else record { status = true; state = s; log = call ∷ log1 }

  unfoldable pub apply_ssl_options :
      (tpl_id : ℕ) → (url : Bytes) → SslVerify → HttpState → TlsLog → HttpResult
  unfolding enable_checks
  apply_ssl_options tpl_id url verify_off s log = record {
    status = true;
    state = s;
    log = TlsCall.disable_option tpl_id (ssl_server_checks + client_verify) ∷ log;
  }
  apply_ssl_options tpl_id url _ s log = enable_checks tpl_id url s log

  -- What the options of a template come to.
  pub data Applies (tpl_id : ℕ) (mode : SslVerify) (log : TlsLog) (r : HttpResult) : Type 0 where
    unchecked : mode ≡ verify_off → r.status ≡ true → Applies tpl_id mode log r
    checked :
        mode ≢ verify_off
        → r.status ≡ true
        → r.log
          ≡ TlsCall.enable_option tpl_id ssl_server_checks
            ∷ TlsCall.disable_option tpl_id client_verify
            ∷ log
        → tls
            (TlsCall.disable_option tpl_id client_verify ∷ log)
            (TlsCall.enable_option tpl_id ssl_server_checks)
          ≡ 0
        → Applies tpl_id mode log r
    unarmed :
        mode ≢ verify_off
        → r.status ≡ false
        → tls
            (TlsCall.disable_option tpl_id client_verify ∷ log)
            (TlsCall.enable_option tpl_id ssl_server_checks)
          ≢ 0
        → Applies tpl_id mode log r

  enable_checks-Applies :
      (tpl_id : ℕ) (url : Bytes) (mode : SslVerify) (s : HttpState) (log : TlsLog)
      → mode ≢ verify_off
      → Applies tpl_id mode log (enable_checks tpl_id url s log)
  unfolding enable_checks
  enable_checks-Applies tpl_id url mode s log wanted =
      elim (Bool-cases (
        tls (TlsCall.disable_option tpl_id client_verify ∷ log)
          (TlsCall.enable_option tpl_id ssl_server_checks)
        == 0)) [
          | inl armed ↦ rw armed (checked wanted refl refl ((==_iff _ _).0 armed))
          | inr bad ↦ rw bad (unarmed wanted refl (λ e. cc ((==_iff _ _).1 e)))
        ]

  -- Verification is not downgraded: unless the policy is off, `apply_ssl_options` returns true only
  -- where the call that enables every check of the server was the last one made and returned 0, and
  -- returns false where that call failed. With the policy off it returns true.
  pub apply_ssl_options-Applies :
      (tpl_id : ℕ) (url : Bytes) (mode : SslVerify) (s : HttpState) (log : TlsLog)
      → Applies tpl_id mode log (apply_ssl_options tpl_id url mode s log)
  unfolding apply_ssl_options
  apply_ssl_options-Applies tpl_id url verify_off s log = unchecked refl refl
  apply_ssl_options-Applies tpl_id url verify_on s log =
      enable_checks-Applies tpl_id url verify_on s log (λ e. ground arith)
  apply_ssl_options-Applies tpl_id url verify_default s log =
      enable_checks-Applies tpl_id url verify_default s log (λ e. ground arith)
