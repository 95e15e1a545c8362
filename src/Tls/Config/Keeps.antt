-- ===== src/Tls/Config/Keeps.antt =====
-- The HTTP client over its lifetime: brought up, given bundles and settings, and brought down.
use ps4rpi.Prelude.{
  ℕ, inl, inr, Bool, true, false, not, Bool-cases, Option, none, some, List, [], ◌∷◌, Bytes,
}
use ps4rpi.Console.{is_negative}
use ps4rpi.Files.{Source}
use ps4rpi.Request.{Json, JsonType, same_type}
use ps4rpi.Tls.{
  SslVerify, TlsCall, TlsLog, TlsLibrary, HttpState, HttpResult, http_set_ssl_verify, BundlePath,
  http_load_ca_bundle,
}
use ps4rpi.Tls.Bundle.{
  IsUnloading, IsHeld, Keeps, if-Keeps, unload-IsHeld, http_load_ca_bundle-IsHeld,
}
use ps4rpi.Tls.Config.{
  verify_member, path_member, load_root, load_config_text, http_load_config, load_at_start,
  init_http, init_ssl, http_init, http_fini,
}

-- the calls that change the state, as one alphabet
pub data TlsOperation : Type 0 where
  init : (net_initialized : Bool) → (mem_id : ℕ) → TlsOperation
  fini : TlsOperation
  load : BundlePath → TlsOperation
  set_verify : SslVerify → TlsOperation

module _ {Node : Type 0} (json : Json Node) (tls : TlsLibrary) (files : Bytes → Source) where
  abbrev pub operate : TlsOperation → HttpState → TlsLog → HttpResult
  operate (init net_initialized mem_id) s log =
      http_init json tls files net_initialized mem_id s log
  operate fini s log = http_fini json tls files s log
  operate (load which) s log = http_load_ca_bundle tls files which s log
  operate (set_verify mode) s log = record {
    status = true;
    state = http_set_ssl_verify mode s;
    log = log;
  }

  abbrev pub operate_all : List TlsOperation → HttpState → TlsLog → HttpResult
  operate_all [] s log = record { status = true; state = s; log = log }
  operate_all (o ∷ os) s log = let r = operate o s log in operate_all os r.state r.log

  verify_member-IsHeld :
      (o : Option Node) (s : HttpState) (log : TlsLog)
      → IsHeld tls s log
      → IsHeld tls (verify_member json o s) log
  unfolding verify_member
  verify_member-IsHeld none s log h = h
  verify_member-IsHeld (some field) s log h =
      elim (Bool-cases (same_type (json.get_type field) JsonType.boolean)) [
        | inl same ↦ rw same h
        | inr other ↦ rw other h
      ]

  path_member-IsHeld :
      (o : Option Node) (s : HttpState) (log : TlsLog)
      → IsHeld tls s log
      → IsHeld tls (path_member json o s) log
  unfolding path_member
  path_member-IsHeld none s log h = h
  path_member-IsHeld (some field) s log h =
      elim (Bool-cases (same_type (json.get_type field) JsonType.text)) [
        | inl same ↦ rw same h
        | inr other ↦ rw other h
      ]

  root-IsHeld :
      (o : Option Node) (s : HttpState) (log : TlsLog)
      → IsHeld tls s log
      → IsHeld tls (load_root json o s).1 log
  unfolding load_root
  root-IsHeld none s log h = h
  root-IsHeld (some root) s log h = path_member-IsHeld _ _ log (verify_member-IsHeld _ s log h)

  config-IsHeld :
      (o : Option Bytes) (s : HttpState) (log : TlsLog)
      → IsHeld tls s log
      → IsHeld tls (load_config_text json o s).1 log
  unfolding load_config_text
  config-IsHeld none s log h = h
  config-IsHeld (some text) s log h = root-IsHeld (json.create text 16) s log h

  start-IsHeld :
      (s : HttpState) (log : TlsLog)
      → IsUnloading tls
      → IsHeld tls s log
      → Keeps tls (load_at_start json tls files s log)
  unfolding load_at_start
  start-IsHeld s log unloads h =
      let kept = (http_load_ca_bundle-IsHeld tls unloads files BundlePath.own s log h).held in
      if-Keeps tls (not (http_load_ca_bundle tls files BundlePath.own s log).status)
        (record { held = kept }) (record { held = kept })

  init_http-IsHeld :
      (mem_id ssl : ℕ) (s : HttpState) (log : TlsLog)
      → IsUnloading tls
      → IsHeld tls s log
      → Keeps tls (init_http json tls files mem_id ssl s log)
  unfolding init_http http_load_config
  init_http-IsHeld mem_id ssl s log unloads h =
      elim (Bool-cases (is_negative (tls log (TlsCall.http_init mem_id ssl)))) [
        | inl bad ↦ rw bad (record { held = h })
        | inr good ↦
            rw good
              (start-IsHeld _ _ unloads (config-IsHeld _ _ (TlsCall.http_init mem_id ssl ∷ log) h))
      ]

  init_ssl-IsHeld :
      (mem_id : ℕ) (s : HttpState) (log : TlsLog)
      → IsUnloading tls
      → IsHeld tls s log
      → Keeps tls (init_ssl json tls files mem_id s log)
  unfolding init_ssl
  init_ssl-IsHeld mem_id s log unloads h =
      elim (Bool-cases (is_negative (tls log TlsCall.ssl_init))) [
        | inl bad ↦ rw bad (record { held = h })
        | inr good ↦ rw good (init_http-IsHeld mem_id _ s _ unloads h)
      ]

  init-IsHeld :
      (net_initialized : Bool) (mem_id : ℕ) (s : HttpState) (log : TlsLog)
      → IsUnloading tls
      → IsHeld tls s log
      → Keeps tls (http_init json tls files net_initialized mem_id s log)
  unfolding http_init
  init-IsHeld true mem_id s log unloads h =
      if-Keeps tls s.http_initialized (record { held = h }) (init_ssl-IsHeld mem_id s log unloads h)
  init-IsHeld false mem_id s log unloads h =
      if-Keeps tls s.http_initialized (record { held = h }) (record { held = h })

  fini-IsHeld :
      (s : HttpState) (log : TlsLog)
      → IsUnloading tls
      → IsHeld tls s log
      → Keeps tls (http_fini json tls files s log)
  unfolding http_fini
  fini-IsHeld s log unloads h =
      if-Keeps tls (not s.http_initialized) (record { held = h })
        (record { held = inl (unload-IsHeld tls unloads s log h) })

  operate-IsHeld :
      (o : TlsOperation) (s : HttpState) (log : TlsLog)
      → IsUnloading tls
      → IsHeld tls s log
      → Keeps tls (operate o s log)
  unfolding http_set_ssl_verify
  operate-IsHeld (init net_initialized mem_id) s log unloads h =
      init-IsHeld net_initialized mem_id s log unloads h
  operate-IsHeld fini s log unloads h = fini-IsHeld s log unloads h
  operate-IsHeld (load which) s log unloads h =
      http_load_ca_bundle-IsHeld tls unloads files which s log h
  operate-IsHeld (set_verify mode) s log unloads h = record { held = h }

  -- Through any sequence of bringing the client up and down, loading bundles and setting the policy,
  -- whether these succeed or not, the HTTP library has registered the one buffer that the program
  -- holds, or none when it holds none, where that was so before and unloading a bundle does not
  -- fail: no bundle is registered twice, and none that was freed.
  pub operate_all-IsHeld :
      (os : List TlsOperation) (s : HttpState) (log : TlsLog)
      → IsUnloading tls
      → IsHeld tls s log
      → Keeps tls (operate_all os s log)
  operate_all-IsHeld [] s log unloads h = record { held = h }
  operate_all-IsHeld (o ∷ os) s log unloads h =
      operate_all-IsHeld os (operate o s log).state (operate o s log).log unloads
        (operate-IsHeld o s log unloads h).held
