-- ===== src/Tls.antt =====
-- RPI/http.c, the state of the HTTP client: `http_init`, `http_fini`, the policy on server
-- certificates, the bundle of trusted roots and the configuration file. The state is the file's
-- static variables, and the calls made on the console's SSL and HTTP libraries are a log, the latest
-- first. A file of the console is a Source under its path.
pub mod Config
pub mod Bundle
pub mod Options
mod Tests
use ps4rpi.Prelude.{
  ℕ, ◌+◌, ◌-◌, ◌*◌, ◌/◌, ◌%◌, ◌^◌, Bool, true, false, not, Option, none, some, List, [], ◌∷◌, ◌++◌,
  if◌then◌else◌, ◌==◌, ltb, length, take, get_or, Bytes, codes, strlcpy,
}
use ps4rpi.Console.{is_negative, minus_one}
use ps4rpi.Files.{Source, read_text_file, Sink, Written, write_file}
use ps4rpi.Http.{JsonEscape, escape_json_string}
use ps4rpi.Request.{JsonType, same_type, Json}

-- `enum http_ssl_verify_mode`
pub data SslVerify : Type 0 where
  verify_default verify_off verify_on : SslVerify

pub data TlsCall : Type 0 where
  ssl_init : TlsCall
  ssl_term : ℕ → TlsCall
  -- the memory pool and the context
  http_init : ℕ → ℕ → TlsCall
  http_term : ℕ → TlsCall
  load_cert : ℕ → Bytes → TlsCall
  unload_cert : ℕ → TlsCall
  disable_option enable_option : ℕ → ℕ → TlsCall
  -- requests: the context, the template and the URL, the connection with method, URL and size
  create_template : ℕ → TlsCall
  create_connection : ℕ → Bytes → TlsCall
  create_request : ℕ → ℕ → Bytes → ℕ → TlsCall
  add_request_header : ℕ → Bytes → Bytes → TlsCall
  send_request : ℕ → Option Bytes → TlsCall
  get_last_errno get_status_code get_content_length : ℕ → TlsCall
  delete_request delete_connection delete_template : ℕ → TlsCall

abbrev pub TlsLog : Type 0
TlsLog = List TlsCall

-- what the calls return, as 32-bit patterns
abbrev pub TlsLibrary : Type 0
TlsLibrary = TlsLog → TlsCall → ℕ

-- the static variables
pub record HttpState : Type 0 where
  pub http_initialized : Bool
  pub libssl_ctx_id : ℕ
  pub libhttp_ctx_id : ℕ
  pub ssl_verify_mode : SslVerify
  pub ca_bundle_path : Bytes
  -- `s_ca_bundle_data`, which `s_ca_bundle_pem` points at too
  pub ca_bundle_data : Option Bytes
  pub ca_bundle_loaded : Bool
  pub last_error : Bytes

pub record HttpResult : Type 0 where
  pub status : Bool
  pub state : HttpState
  pub log : TlsLog

-- HTTP_CA_BUNDLE_PATH and HTTP_CONFIG_PATH
abbrev pub default_ca_bundle_path : Bytes
default_ca_bundle_path = codes "/data/rpi_cacert.pem"

abbrev pub config_path : Bytes
config_path = codes "/data/rpi_config.json"

-- sizeof(s_ca_bundle_path), CA_BUNDLE_MAX_SIZE, CONFIG_MAX_SIZE
abbrev pub path_size : ℕ
path_size = 256

abbrev pub ca_bundle_max_size : ℕ
ca_bundle_max_size = 1024 * 1024

abbrev pub config_max_size : ℕ
config_max_size = 64 * 1024

-- `%08X`
abbrev upper_hex : ℕ → ℕ
upper_hex n = get_or (codes "0123456789ABCDEF") (n % 16) 0

unfoldable pub hex8 : ℕ → Bytes
hex8 n =
    upper_hex (n / 16 ^ 7)
    ∷ upper_hex (n / 16 ^ 6)
    ∷ upper_hex (n / 16 ^ 5)
    ∷ upper_hex (n / 16 ^ 4)
    ∷ upper_hex (n / 16 ^ 3)
    ∷ upper_hex (n / 16 ^ 2)
    ∷ upper_hex (n / 16)
    ∷ upper_hex n
    ∷ []

-- The message is given as `vsnprintf` would print it; the buffer has 512 bytes.
abbrev pub set_last_error : Bytes → HttpState → HttpState
set_last_error message s = record s { last_error = take 511 message }

abbrev pub http_clear_last_error : HttpState → HttpState
http_clear_last_error s = record s { last_error = [] }

abbrev off_or_on : SslVerify → SslVerify
off_or_on verify_off = verify_off
off_or_on _ = verify_on

unfoldable pub http_set_ssl_verify : SslVerify → HttpState → HttpState
http_set_ssl_verify mode s = record s { ssl_verify_mode = off_or_on mode }

abbrev pub is_on : SslVerify → Bool
is_on verify_on = true
is_on _ = false

abbrev pub on_or_off : Bool → SslVerify
on_or_off true = verify_on
on_or_off false = verify_off

-- What `http_load_ca_bundle` is given: null, the variable `s_ca_bundle_path` itself, or a string that
-- is elsewhere.
pub data BundlePath : Type 0 where
  null own : BundlePath
  given : Bytes → BundlePath

abbrev pub path_of : BundlePath → HttpState → Bytes
path_of null s = []
path_of own s = s.ca_bundle_path
path_of (given path) s = path

-- `if (path != s_ca_bundle_path) strlcpy(s_ca_bundle_path, ...)`
abbrev keep_path : BundlePath → HttpState → HttpState
keep_path (given path) s = record s { ca_bundle_path = strlcpy path path_size }
keep_path _ s = s

module _ (tls : TlsLibrary) where
  -- returns nothing; the status is not read
  unfoldable pub unload_ca_bundle : HttpState → TlsLog → HttpResult
  unload_ca_bundle s log = record {
    status = true;
    state = record s { ca_bundle_loaded = false; ca_bundle_data = none };
    log = if s.ca_bundle_loaded then TlsCall.unload_cert s.libhttp_ctx_id ∷ log else log;
  }

  abbrev pub failed : Bytes → HttpState → TlsLog → HttpResult
  failed message s log = record { status = false; state = set_last_error message s; log = log }

  -- from the registering call on, the old bundle being unloaded
  register_bundle : BundlePath → Bytes → Bytes → HttpState → TlsLog → HttpResult
  register_bundle which path text s log =
      let call = TlsCall.load_cert s.libhttp_ctx_id text in
      let ret = tls log call in
      if not (ret == 0)
      then failed
          (codes "Unable to load CA bundle '"
            ++ (path ++ (codes "': 0x" ++ (hex8 ret ++ codes "."))))
          (record s { ca_bundle_data = none }) (call ∷ log)
      else record {
        status = true;
        state = keep_path which (record s { ca_bundle_data = some text; ca_bundle_loaded = true });
        log = call ∷ log;
      }

  -- with what was read of the file
  load_text : BundlePath → Bytes → Option Bytes → HttpState → TlsLog → HttpResult
  unfolding register_bundle unload_ca_bundle
  load_text which path none s log =
      failed (codes "Unable to read CA bundle '" ++ (path ++ codes "'.")) s log
  load_text which path (some []) s log =
      failed (codes "CA bundle '" ++ (path ++ codes "' is empty.")) s log
  load_text which path (some (c ∷ text)) s log =
      let u = unload_ca_bundle s log in register_bundle which path (c ∷ text) u.state u.log

  load_path : BundlePath → (Bytes → Source) → Bytes → HttpState → TlsLog → HttpResult
  unfolding load_text
  load_path which files [] s log = failed (codes "Empty CA bundle path.") s log
  load_path which files (c ∷ path) s log =
      load_text which (c ∷ path) (read_text_file (files (c ∷ path)) ca_bundle_max_size) s log

  unfoldable pub http_load_ca_bundle :
      (files : Bytes → Source) → BundlePath → HttpState → TlsLog → HttpResult
  unfolding load_path
  http_load_ca_bundle files which s log =
      if not s.http_initialized
      then failed (codes "HTTP is not initialized.") s log
      else load_path which files (path_of which s) s log
