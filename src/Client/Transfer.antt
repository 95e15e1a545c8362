-- ===== src/Client/Transfer.antt =====
-- RPI/http.c, what is asked of a server: `http_get_file_size`, `http_download_file`,
-- `http_unescape_uri`.
pub mod Kept
use ps4rpi.Prelude.{
  ℕ, ◌+◌, ◌-◌, ◌%◌, ◌^◌, true, false, not, ◌&&◌, Option, none, some, List, [], ◌∷◌, ◌++◌,
  if◌then◌else◌, ◌==◌, ltb, Bytes, codes,
}
use ps4rpi.Text.Decimal.{decimal, decimal_int}
use ps4rpi.Download.{
  HttpErrors, DownloadArgs, Response, uint64_max, is_good_status, download_file_cb,
}
use ps4rpi.Tls.{SslVerify, TlsLog, HttpState, set_last_error}
use ps4rpi.Client.{HttpLibrary, Performed, method_get, download_chunk_size, do_request}

-- what the library has for the callback, at the state of the log
abbrev pub response_of : HttpLibrary → TlsLog → (req_id status_code : ℕ) → Option ℕ → Response
response_of lib log req_id status_code content_length = record {
  req_id = req_id;
  status_code = status_code;
  content_length = content_length;
  read = lib.read log req_id;
  malloc = lib.malloc;
}

-- `download_file_cb`, as the callback of a request
abbrev pub file_cb :
    HttpErrors
    → HttpLibrary
    → TlsLog
    → (req_id status_code : ℕ) → Option ℕ
    → DownloadArgs
    → ℕ × DownloadArgs
file_cb e lib log req_id status_code content_length args =
    let c = download_file_cb e (response_of lib log req_id status_code content_length) args in
    (c.ret, c.args)

-- What `http_download_file` stores through its pointers; none is the return of false.
pub record Downloaded : Type 0 where
  pub content : Option Bytes
  pub data_size : ℕ
  pub total_size : ℕ

pub record Fetched (A : Type 0) : Type 0 where
  pub value : Option A
  pub state : HttpState
  pub log : TlsLog

abbrev pub no_args : DownloadArgs
no_args = record {
  data_stored = none;
  data_size = 0;
  actual_size = 0;
  content_length = 0;
  has_chunk = false;
  chunk_size = 0;
  want_partial = false;
  range_ignored = false;
  status_code = 0;
}

abbrev status_message : (status_code : ℕ) → (url : Bytes) → Bytes
status_message status_code url =
    codes "Unexpected HTTP status "
    ++ (decimal_int status_code ++ (codes " for '" ++ (url ++ codes "'.")))

abbrev range_message : (status_code : ℕ) → (url : Bytes) → Bytes
range_message status_code url =
    codes "Server answered a range request for '"
    ++ (url
        ++ (codes "' with HTTP "
            ++ (decimal_int status_code
                ++ codes " instead of 206, so it cannot serve partial content.")))

abbrev pub accept_encoding : Bytes × Bytes
accept_encoding = (codes "Accept-Encoding", codes "identity")

-- the header for `size` bytes at an offset; the numbers have 64 bits
unfoldable pub range_of : (offset size : ℕ) → Bytes
range_of offset size =
    codes "bytes="
    ++ (decimal offset ++ (codes "-" ++ decimal ((offset + size + 2 ^ 64 - 1) % 2 ^ 64)))

module _ (e : HttpErrors) (lib : HttpLibrary) where
  abbrev no_value : {A : Type 0} → HttpState → TlsLog → Fetched A
  no_value s log = record { value = none; state = s; log = log }

  -- after the request for the size
  size_reported : (url : Bytes) → Performed DownloadArgs → Fetched ℕ
  size_reported url r =
      if not (r.ret == 0)
      then no_value r.state r.log
      else if not (is_good_status r.arg.status_code)
      then no_value (set_last_error (status_message r.arg.status_code url) r.state) r.log
      else if r.arg.content_length == uint64_max
      then no_value
          (set_last_error (codes "Server did not report a size for '" ++ (url ++ codes "'."))
            r.state)
          r.log
      else record { value = some r.arg.content_length; state = r.state; log = r.log }

  -- what is stored to `*total_size`
  unfoldable pub http_get_file_size : Option Bytes → SslVerify → HttpState → TlsLog → Fetched ℕ
  unfolding size_reported
  http_get_file_size none mode s log = no_value s log
  http_get_file_size (some url) mode s log =
      if not s.http_initialized
      then no_value s log
      else size_reported url (
          do_request lib e.invalid_value (file_cb e lib) (some url) method_get none [] no_args mode
            s log)

  -- the arguments of the callback, and the headers, for bytes asked at an offset
  abbrev pub args_of : (data_size offset : ℕ) → DownloadArgs
  args_of data_size offset = record no_args {
    data_size = data_size;
    has_chunk = true;
    chunk_size = download_chunk_size;
    want_partial = ltb 0 offset && ltb 0 data_size;
  }

  abbrev pub headers_of : (data_size offset : ℕ) → List (Bytes × Bytes)
  headers_of data_size offset =
      accept_encoding
      ∷ (if ltb 0 offset && ltb 0 data_size
          then (codes "Range", range_of offset data_size) ∷ []
          else [])

  -- after the request for the file
  content_reported : (url : Bytes) → Performed DownloadArgs → Fetched Downloaded
  content_reported url r =
      if r.arg.range_ignored
      then no_value (set_last_error (range_message r.arg.status_code url) r.state) r.log
      else if not (r.ret == 0)
      then no_value r.state r.log
      else if not (is_good_status r.arg.status_code)
      then no_value (set_last_error (status_message r.arg.status_code url) r.state) r.log
      else record {
        value = some (record {
          content = r.arg.data_stored;
          data_size = r.arg.actual_size;
          total_size = r.arg.content_length;
        });
        state = r.state;
        log = r.log;
      }

  -- `data_size` is `*data_size`, or (uint64_t)-1 for a null pointer
  unfoldable pub http_download_file :
      Option Bytes → (data_size offset : ℕ) → SslVerify → HttpState → TlsLog → Fetched Downloaded
  unfolding content_reported
  http_download_file none data_size offset mode s log = no_value s log
  http_download_file (some url) data_size offset mode s log =
      if not s.http_initialized
      then no_value s log
      else content_reported url (
          do_request lib e.invalid_value (file_cb e lib) (some url) method_get none
            (headers_of data_size offset) (args_of data_size offset) mode s log)

  -- what is stored to `*out`, the string being no null pointer
  unfoldable pub http_unescape_uri : HttpState → Bytes → Option Bytes
  http_unescape_uri s uri =
      if not s.http_initialized
      then none
      else if not ((lib.unescape_size uri).0 == 0)
      then none
      else if not (lib.malloc (lib.unescape_size uri).1)
      then none
      else if not ((lib.unescape uri).0 == 0)
      then none
      else some (lib.unescape uri).1
