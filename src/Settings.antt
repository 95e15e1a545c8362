-- ===== src/Settings.antt =====
-- RPI/server.c, `write_settings_json` and `handle_api_settings`, over the state of RPI/http.c.
pub mod Explicit
mod Tests
use ps4rpi.Prelude.{
  ℕ, Bool, true, false, not, ◌&&◌, Option, none, some, [], ◌∷◌, ◌++◌, if◌then◌else◌, Bytes, codes,
}
use ps4rpi.Http.{JsonEscape, escape_json_string}
use ps4rpi.Response.{Reply, Write, Argument, kick_result_header_json, kick_errorf}
use ps4rpi.Request.{
  Json, Parsed, parsed, answered, ◌>>=◌, request_parse, request_str, request_bool_opt,
}
use ps4rpi.Files.{Source, Sink, Written}
use ps4rpi.Dispatch.{str_case_eq}
use ps4rpi.Tls.{
  SslVerify, TlsLog, TlsLibrary, HttpState, HttpResult, config_path, http_set_ssl_verify, is_on,
  on_or_off, BundlePath, http_load_ca_bundle,
}
use ps4rpi.Tls.Config.{http_save_config, is_saved}

-- what the handler returns and sends, the state after it, the calls made, and what was written to the
-- configuration file, if it was opened
pub record Settled : Type 0 where
  pub returned : Bool
  pub sent : Reply
  pub state : HttpState
  pub log : TlsLog
  pub saved : Option Written

abbrev is_blank : Option Bytes → Bool
is_blank none = true
is_blank (some []) = true
is_blank (some (c ∷ s)) = false

abbrev flag : Bool → Bytes
flag true = codes "true"
flag false = codes "false"

abbrev or_nothing : Option Bytes → Bytes
or_nothing none = codes ""
or_nothing (some s) = s

module _ {Node : Type 0} (json : Json Node) (np_escape : JsonEscape) (tls : TlsLibrary)
    (files : Bytes → Source) (sink : Sink) where
  unfoldable pub write_settings_json : HttpState → Reply
  write_settings_json s =
      kick_result_header_json
      ++ (Write.writef
            "{ \"status\": \"success\", \"ssl_verify\": %s, \"ca_bundle\": \"%s\", \"ca_bundle_loaded\": %s }\n"
            (Argument.str (flag (is_on s.ssl_verify_mode))
              ∷ Argument.str (
                  or_nothing (escape_json_string np_escape s.http_initialized 512 s.ca_bundle_path))
              ∷ Argument.str (flag s.ca_bundle_loaded)
              ∷ [])
          ∷ [])

  abbrev reported : HttpState → TlsLog → Option Written → Settled
  reported s log saved = record {
    returned = true;
    sent = write_settings_json s;
    state = s;
    log = log;
    saved = saved;
  }

  abbrev turned_away : Reply → HttpState → TlsLog → Option Written → Settled
  turned_away reply s log saved = record {
    returned = false;
    sent = reply;
    state = s;
    log = log;
    saved = saved;
  }

  abbrev server_error : Bytes → HttpState → Reply
  server_error message s =
      kick_errorf np_escape s.http_initialized 500 (codes "Internal server error") message

  -- from `http_save_config` on
  save : HttpState → TlsLog → Settled
  save s log =
      let saved = http_save_config np_escape sink s in
      if not (is_saved saved)
      then turned_away
          (server_error (codes "Unable to save settings to '" ++ (config_path ++ codes "'.")) s) s
          log saved
      else reported s log saved

  -- with the path asked for
  load_bundle : Parsed Bytes → HttpState → TlsLog → Settled
  unfolding save
  load_bundle (answered reply) s log = turned_away reply s log none
  load_bundle (parsed ca_bundle) s log =
      let r = http_load_ca_bundle tls files (BundlePath.given ca_bundle) s log in
      if not r.status
      then turned_away
          (server_error
            (codes "Unable to load CA bundle '"
              ++ (ca_bundle ++ (codes "': " ++ r.state.last_error)))
            r.state)
          r.state r.log none
      else save r.state r.log

  bundle_member : Node → Option Node → HttpState → TlsLog → Settled
  unfolding load_bundle
  bundle_member root none s log = save s log
  bundle_member root (some field) s log =
      load_bundle (request_str json np_escape s.http_initialized root (codes "ca_bundle")) s log

  -- with the switch asked for, or the one that is set
  settle : Node → Parsed Bool → HttpState → TlsLog → Settled
  unfolding bundle_member
  settle root (answered reply) s log = turned_away reply s log none
  settle root (parsed verify) s log =
      bundle_member root (json.get_property root (codes "ca_bundle"))
        (http_set_ssl_verify (on_or_off verify) s) log

  settle_root : Parsed Node → HttpState → TlsLog → Settled
  unfolding settle
  settle_root (answered reply) s log = turned_away reply s log none
  settle_root (parsed root) s log =
      settle root
        (request_bool_opt json np_escape s.http_initialized root (codes "ssl_verify")
          (is_on s.ssl_verify_mode))
        s log

  unfoldable pub handle_api_settings :
      (method : Bytes) → Option Bytes → HttpState → TlsLog → Settled
  unfolding settle_root
  handle_api_settings method in_data s log =
      if str_case_eq method (codes "GET") && is_blank in_data
      then reported s log none
      else settle_root (request_parse json np_escape s.http_initialized in_data) s log
