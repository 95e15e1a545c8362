-- ===== src/Samples.antt =====
-- Concrete values for the tests: a console on which every call succeeds, requests in JSON, a content
-- id.
use ps4rpi.Prelude.{
  ℕ, true, false, [], take, drop, Option, none, some, if◌then◌else◌, Bytes, codes, str_eq,
}
use ps4rpi.Console.{Console, Call, Log, TaskProgress}
use ps4rpi.ContentId.{ContentInfo}
use ps4rpi.Installer.{Installer}
use ps4rpi.Http.{JsonEscape}
use ps4rpi.Download.{HttpErrors, ReadData}
use ps4rpi.Tls.{verify_on, TlsCall, TlsLog, HttpState, default_ca_bundle_path}
use ps4rpi.Client.{HttpLibrary}
use ps4rpi.Request.{Json, JsonType}

abbrev no_progress : TaskProgress
no_progress = record {
  bits = 0;
  error_result = 0;
  length = 0;
  transferred = 0;
  length_total = 0;
  transferred_total = 0;
  num_index = 0;
  num_total = 0;
  rest_sec = 0;
  rest_sec_total = 0;
  preparing_percent = 0;
  local_copy_percent = 0;
}

-- memory is at 4096, everything else returns 0
abbrev sample_ret : Log → Call → ℕ
sample_ret log (Call.malloc n) = 4096
sample_ret log _ = 0

abbrev pub sample_console : Console
sample_console = record {
  ret = sample_ret;
  out = λ log c. 7;
  out_progress = λ log c. no_progress;
  enxio = 0x80020006;
  einval = 0x80020016;
  sub_type_unknown = 0;
  sub_type_max = 20;
  opt_disable_cdn_query_param = 0x10000;
}

abbrev pub running : Installer
running = record { app_inst_util_initialized = true; bgft_initialized = true; bgft_heap = 4096 }

abbrev pub sample_escape : JsonEscape
sample_escape n s = some s

-- the nodes of one request
pub data SampleNode : Type 0 where
  root task title : SampleNode

abbrev sample_property : SampleNode → Bytes → Option SampleNode
sample_property root name =
    if str_eq name (codes "task_id")
    then some task
    else if str_eq name (codes "title_id")
    then some title
    else none
sample_property _ name = none

abbrev sample_type : SampleNode → JsonType
sample_type root = JsonType.obj
sample_type task = JsonType.integer
sample_type title = JsonType.text

-- { "task_id": 7, "title_id": "CUSA00001" }
abbrev pub sample_json : Json SampleNode
sample_json = record {
  create = λ s n. some root;
  get_property = sample_property;
  get_type = sample_type;
  get_value = λ node. codes "CUSA00001";
  get_integer = λ node. 7;
  get_boolean = λ node. true;
  get_children = λ node. [];
  get_property_value = λ node name. none;
}

abbrev pub sample_id : Bytes
sample_id = codes "UP0001-CUSA00001_00-ABCDEFGHIJKLMNOP"

abbrev pub sample_info : ContentInfo
sample_info = record {
  content_id = sample_id;
  service_id = codes "UP0001-CUSA00001_00";
  title_id = codes "CUSA00001";
  label = codes "ABCDEFGHIJKLMNOP";
}

-- an HTTP library that answers every request with six bytes, as a part
abbrev pub sample_errors : HttpErrors
sample_errors = record {
  invalid_id = 0x80431100;
  invalid_value = 0x804311FE;
  no_content_length = 0x80431071;
  out_of_memory = 0x80431022;
}

abbrev ids : TlsLog → TlsCall → ℕ
ids log (TlsCall.create_template ctx) = 11
ids log (TlsCall.create_connection t url) = 12
ids log (TlsCall.create_request c m url n) = 13
ids log _ = 0

abbrev pub sample_server : HttpLibrary
sample_server = record {
  ret = ids;
  last_errno = λ log q. 0;
  status_code = λ log q. 206;
  content_length = λ log q. some 6;
  read = λ log q offset room. ReadData.got (take room (drop offset (codes "abcdef")));
  malloc = λ n. true;
  unescape_size = λ s. (0, 64);
  unescape = λ s. (0, s);
}

abbrev pub http_up : HttpState
http_up = record {
  http_initialized = true;
  libssl_ctx_id = 1;
  libhttp_ctx_id = 2;
  ssl_verify_mode = verify_on;
  ca_bundle_path = default_ca_bundle_path;
  ca_bundle_data = none;
  ca_bundle_loaded = false;
  last_error = [];
}
