-- ===== src/Settings/Tests.antt =====
-- Settings reported and changed.
use ps4rpi.Prelude.{
  ◌≡◌, refl, Option, true, false, none, some, [], length, if◌then◌else◌, Bytes, codes, str_eq,
}
use ps4rpi.Samples.{sample_escape}
use ps4rpi.Request.{Json, JsonType, request_parse, request_field, request_str, request_bool_opt}
use ps4rpi.Files.{Source, read_text_file, Sink}
use ps4rpi.Tls.{
  verify_on, verify_off, TlsLibrary, HttpState, default_ca_bundle_path, http_set_ssl_verify,
  http_load_ca_bundle,
}
use ps4rpi.Settings.{handle_api_settings}
use ps4rpi.Settings.Explicit.{IsOffRequest, handle_api_settings-IsOffRequest}

-- the nodes of { "ssl_verify": false, "ca_bundle": "/none" }
pub data OffNode : Type 0 where
  off_root switch bundle : OffNode

abbrev off_property : OffNode → Bytes → Option OffNode
off_property off_root name =
    if str_eq name (codes "ssl_verify")
    then some switch
    else if str_eq name (codes "ca_bundle")
    then some bundle
    else none
off_property _ name = none

abbrev off_type : OffNode → JsonType
off_type off_root = JsonType.obj
off_type switch = JsonType.boolean
off_type bundle = JsonType.text

abbrev off_json : Json OffNode
off_json = record {
  create = λ s n. some off_root;
  get_property = off_property;
  get_type = off_type;
  get_value = λ node. codes "/none";
  get_integer = λ node. 0;
  get_boolean = λ node. false;
  get_children = λ node. [];
  get_property_value = λ node name. none;
}

abbrev working : TlsLibrary
working log call = 0

-- there are no files
abbrev no_files : Bytes → Source
no_files path = record {
  opens = false;
  file_size = none;
  read = λ offset room. [];
  malloc = λ n. true;
}

abbrev whole : Sink
whole = record { opens = true; write = λ offset given. length given }

abbrev up : HttpState
up = record {
  http_initialized = true;
  libssl_ctx_id = 1;
  libhttp_ctx_id = 2;
  ssl_verify_mode = verify_on;
  ca_bundle_path = default_ca_bundle_path;
  ca_bundle_data = none;
  ca_bundle_loaded = false;
  last_error = [];
}

abbrev off_body : Option Bytes
off_body = some (codes "{ \"ssl_verify\": false, \"ca_bundle\": \"/none\" }")

-- the bundle is missing and the request is refused, but verification is off
refused :
    (handle_api_settings off_json sample_escape working no_files whole
      (codes "POST")
      off_body
      up
      []).returned
    ≡ false
unfolding handle_api_settings str_eq request_parse request_field request_str request_bool_opt
    http_set_ssl_verify http_load_ca_bundle read_text_file
refused = refl

turned_off :
    (handle_api_settings off_json sample_escape working no_files whole
      (codes "POST")
      off_body
      up
      []).state.ssl_verify_mode
    ≡ verify_off
unfolding handle_api_settings str_eq request_parse request_field request_str request_bool_opt
    http_set_ssl_verify http_load_ca_bundle read_text_file
turned_off = refl

handle_api_settings-IsOffRequest_example :
    IsOffRequest off_json sample_escape working no_files whole true off_body
handle_api_settings-IsOffRequest_example =
    handle_api_settings-IsOffRequest off_json sample_escape working no_files whole (codes "POST")
      off_body up [] refl turned_off
