-- ===== src/Tls/Config.antt =====
-- RPI/http.c, the configuration file and the bringing up and down of the client:
-- `http_load_config`, `http_save_config`, `http_init`, `http_fini`.
pub mod Keeps
pub mod Up
use ps4rpi.Prelude.{
  ℕ, ◌+◌, ◌*◌, Bool, true, false, not, Option, none, some, List, [], ◌∷◌, ◌++◌, if◌then◌else◌, ltb,
  length, Bytes, codes, strlcpy,
}
use ps4rpi.Console.{is_negative, minus_one}
use ps4rpi.Files.{Source, read_text_file, Sink, Written, write_file}
use ps4rpi.Http.{JsonEscape, escape_json_string}
use ps4rpi.Request.{JsonType, same_type, Json}
use ps4rpi.Tls.{
  SslVerify, TlsCall, TlsLog, TlsLibrary, HttpState, HttpResult, config_path, path_size,
  config_max_size, http_clear_last_error, is_on, on_or_off, BundlePath, unload_ca_bundle,
  http_load_ca_bundle,
}

module _ {Node : Type 0} (json : Json Node) where
  -- a member of the configuration is used only if it is there with its type
  verify_member : Option Node → HttpState → HttpState
  verify_member none s = s
  verify_member (some field) s =
      if same_type (json.get_type field) JsonType.boolean
      then record s { ssl_verify_mode = on_or_off (json.get_boolean field) }
      else s

  path_member : Option Node → HttpState → HttpState
  path_member none s = s
  path_member (some field) s =
      if same_type (json.get_type field) JsonType.text
      then record s { ca_bundle_path = strlcpy (json.get_value field) path_size }
      else s

  load_root : Option Node → HttpState → Bool × HttpState
  unfolding verify_member path_member
  load_root none s = (false, s)
  load_root (some root) s =
      let s1 = verify_member (json.get_property root (codes "ssl_verify")) s in
      (true, path_member (json.get_property root (codes "ca_bundle")) s1)

  load_config_text : Option Bytes → HttpState → Bool × HttpState
  unfolding load_root
  load_config_text none s = (false, s)
  load_config_text (some text) s = load_root (json.create text 16) s

  unfoldable pub http_load_config : (Bytes → Source) → Bytes → HttpState → Bool × HttpState
  unfolding load_config_text
  http_load_config files path s = load_config_text (read_text_file (files path) config_max_size) s

abbrev true_or_false : Bool → Bytes
true_or_false true = codes "true"
true_or_false false = codes "false"

abbrev pub config_text : SslVerify → (escaped_path : Bytes) → Bytes
config_text mode escaped_path =
    codes "{ \"ssl_verify\": "
    ++ (true_or_false (is_on mode)
        ++ (codes ", \"ca_bundle\": \"" ++ (escaped_path ++ codes "\" }\n")))

save_escaped : Option Bytes → Sink → HttpState → Option Written
save_escaped none sink s = none
save_escaped (some escaped_path) sink s =
    let buf = config_text s.ssl_verify_mode escaped_path in
    if ltb (length buf) 512 then some (write_file sink buf) else none

-- What was written to the file, which is emptied first; none where it was not opened for it.
unfoldable pub http_save_config : JsonEscape → Sink → HttpState → Option Written
unfolding save_escaped
http_save_config np_escape sink s =
    save_escaped
      (escape_json_string np_escape s.http_initialized (path_size * 2 + 1) s.ca_bundle_path) sink s

-- the value returned
abbrev pub is_saved : Option Written → Bool
is_saved none = false
is_saved (some w) = w.status

module _ {Node : Type 0} (json : Json Node) (tls : TlsLibrary) (files : Bytes → Source) where
  -- the bundle at start-up, whose absence is no error
  load_at_start : HttpState → TlsLog → HttpResult
  load_at_start s log =
      let r = http_load_ca_bundle tls files BundlePath.own s log in
      if not r.status
      then record { status = true; state = http_clear_last_error r.state; log = r.log }
      else record { status = true; state = r.state; log = r.log }

  -- from `sceHttpInit` on
  init_http : (mem_id ssl : ℕ) → HttpState → TlsLog → HttpResult
  unfolding load_at_start
  init_http mem_id ssl s log =
      let call = TlsCall.http_init mem_id ssl in
      let http = tls log call in
      if is_negative http
      then record {
        status = false;
        state = record s { libssl_ctx_id = minus_one };
        log = TlsCall.ssl_term ssl ∷ call ∷ log;
      }
      else load_at_start
          (http_load_config json files config_path
            (record s { libssl_ctx_id = ssl; libhttp_ctx_id = http; http_initialized = true })).1
          (call ∷ log)

  -- from `sceSslInit` on
  init_ssl : (mem_id : ℕ) → HttpState → TlsLog → HttpResult
  unfolding init_http
  init_ssl mem_id s log =
      let ssl = tls log TlsCall.ssl_init in
      if is_negative ssl
      then record { status = false; state = s; log = TlsCall.ssl_init ∷ log }
      else init_http mem_id ssl s (TlsCall.ssl_init ∷ log)

  -- `net_is_initialized()` and `net_get_mem_id()` of RPI/net.c are given
  unfoldable pub http_init :
      (net_initialized : Bool) → (mem_id : ℕ) → HttpState → TlsLog → HttpResult
  unfolding init_ssl
  http_init net_initialized mem_id s log =
      if s.http_initialized
      then record { status = true; state = s; log = log }
      else if not net_initialized
      then record { status = false; state = s; log = log }
      else init_ssl mem_id s log

  unfoldable pub http_fini : HttpState → TlsLog → HttpResult
  http_fini s log =
      if not s.http_initialized
      then record { status = true; state = s; log = log }
      else let u = unload_ca_bundle tls s log in
        record {
          status = true;
          state = record u.state {
            http_initialized = false;
            libssl_ctx_id = minus_one;
            libhttp_ctx_id = minus_one;
          };
          log = TlsCall.ssl_term s.libssl_ctx_id ∷ TlsCall.http_term s.libhttp_ctx_id ∷ u.log;
        }
