-- ===== src/Dispatch.antt =====
-- RPI/server.c, the table of endpoints `s_handlers` and `event_handler`, up to the call of the
-- handler.
pub mod Routes
pub mod Events
mod Tests
use ps4rpi.Prelude.{
  ℕ, ◌+◌, ◌-◌, Bool, true, false, not, Option, none, some, List, [], ◌∷◌, if◌then◌else◌, ◌==◌, ltb,
  take, drop, map, Bytes, codes, str_eq, tolower, strstr,
}
use ps4rpi.Http.{JsonEscape}
use ps4rpi.Response.{Reply, kick_result_header_json, kick_error}

-- `strcasecmp(a, b) == 0`
abbrev pub str_case_eq : Bytes → Bytes → Bool
str_case_eq a b = str_eq (map tolower a) (map tolower b)

abbrev is_start : Option ℕ → Bool
is_start none = false
is_start (some i) = i == 0

-- METHOD_GET, METHOD_POST
pub data Method : Type 0 where
  get post : Method

-- the functions that `s_handlers` points at
pub data Handler : Type 0 where
  handle_static handle_api_install handle_api_uninstall handle_api_is_exists
        handle_api_task_action :
      Handler
  handle_api_get_task_progress handle_api_find_task handle_api_settings : Handler

-- the bits of `methods`
pub record Methods : Type 0 where
  pub get : Bool
  pub post : Bool

-- `struct handler_desc`
pub record HandlerDesc : Type 0 where
  pub path : Bytes
  pub handler : Handler
  pub methods : Methods
  pub need_partial_match : Bool

-- `methods & wanted`
abbrev pub allows : Methods → Method → Bool
allows m get = m.get
allows m post = m.post

abbrev api : Bytes → Handler → HandlerDesc
api path handler = record {
  path = path;
  handler = handler;
  methods = record { get = true; post = true };
  need_partial_match = false;
}

abbrev pub s_handlers : List HandlerDesc
s_handlers =
    record {
      path = codes "/static/";
      handler = Handler.handle_static;
      methods = record { get = true; post = false };
      need_partial_match = true;
    }
    ∷ api (codes "/api/install") Handler.handle_api_install
    ∷ api (codes "/api/uninstall_game") Handler.handle_api_uninstall
    ∷ api (codes "/api/uninstall_ac") Handler.handle_api_uninstall
    ∷ api (codes "/api/uninstall_patch") Handler.handle_api_uninstall
    ∷ api (codes "/api/uninstall_theme") Handler.handle_api_uninstall
    ∷ api (codes "/api/is_exists") Handler.handle_api_is_exists
    ∷ api (codes "/api/start_task") Handler.handle_api_task_action
    ∷ api (codes "/api/stop_task") Handler.handle_api_task_action
    ∷ api (codes "/api/pause_task") Handler.handle_api_task_action
    ∷ api (codes "/api/resume_task") Handler.handle_api_task_action
    ∷ api (codes "/api/unregister_task") Handler.handle_api_task_action
    ∷ api (codes "/api/get_task_progress") Handler.handle_api_get_task_progress
    ∷ api (codes "/api/find_task") Handler.handle_api_find_task
    ∷ api (codes "/api/settings") Handler.handle_api_settings
    ∷ []

-- the test that the loop of `event_handler` stops at
unfoldable pub matches : Method → Bytes → HandlerDesc → Bool
matches wanted path d =
    if not (allows d.methods wanted)
    then false
    else if d.need_partial_match
    then is_start (strstr path d.path)
    else str_eq path d.path

unfoldable pub find_handler : Method → Bytes → List HandlerDesc → Option HandlerDesc
find_handler wanted path [] = none
find_handler wanted path (d ∷ rows) =
    if matches wanted path d then some d else find_handler wanted path rows

-- what `event_handler` reads of a stream of the sandbird library
pub record Stream : Type 0 where
  pub recv_buf : Bytes
  pub data_idx : ℕ
  pub expected_recv_len : ℕ

-- the answers of `sb_get_var`
pub data Var : Type 0 where
  success : Bytes → Var
  truncated missing : Var

pub data EventType : Type 0 where
  request other : EventType

pub record Event : Type 0 where
  pub type : EventType
  pub method : Bytes
  pub path : Bytes
  pub stream : Stream

-- the end of `event_handler`: nothing done, a reply, or the call of a handler with the path and the
-- data, none for null
pub data Dispatched : Type 0 where
  ignored : Dispatched
  replied : Reply → Dispatched
  called : Handler → Bytes → Option Bytes → Dispatched

-- QUERY_DATA_SIZE
abbrev query_data_size : ℕ
query_data_size = 2048

-- the body of a POST request
unfoldable pub post_data : Stream → Option Bytes
post_data st =
    if ltb 0 st.data_idx
    then if ltb st.data_idx st.expected_recv_len
      then some (take (st.expected_recv_len - st.data_idx) (drop st.data_idx st.recv_buf))
      else none
    else none

module _ (np_escape : JsonEscape) (http_initialized : Bool)
    (sb_get_var : Stream → Bytes → ℕ → Var) where
  abbrev bad_request : Bytes → Dispatched
  bad_request message =
      replied (kick_error np_escape http_initialized 400 (codes "Bad request") message)

  call_get : Handler → Bytes → Var → Dispatched
  call_get h path (success value) = called h path (some value)
  call_get h path truncated = bad_request (codes "Query data too long")
  call_get h path missing = called h path none

  call_handler : Method → Bytes → Stream → Option HandlerDesc → Dispatched
  unfolding call_get
  call_handler wanted path st none =
      replied
        (kick_error np_escape http_initialized 404 (codes "Not found") (codes "Unknown endpoint"))
  call_handler post path st (some d) = called d.handler path (post_data st)
  call_handler get path st (some d) =
      call_get d.handler path (sb_get_var st (codes "data") query_data_size)

  dispatch : Bytes → Bytes → Stream → Dispatched
  unfolding call_handler
  dispatch method path st =
      if str_case_eq method (codes "OPTIONS")
      then replied kick_result_header_json
      else if str_case_eq method (codes "GET")
      then call_handler get path st (find_handler get path s_handlers)
      else if str_case_eq method (codes "POST")
      then call_handler post path st (find_handler post path s_handlers)
      else bad_request (codes "Unsupported method")

  handle_event : EventType → Event → Dispatched
  unfolding dispatch
  handle_event other e = ignored
  handle_event request e = dispatch e.method e.path e.stream

  unfoldable pub event_handler : Event → Dispatched
  unfolding handle_event
  event_handler e = handle_event e.type e
