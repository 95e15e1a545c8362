-- ===== src/Handlers.antt =====
-- RPI/server.c, the endpoints that act on titles and on tasks: `handle_api_uninstall`,
-- `handle_api_is_exists`, `handle_api_task_action`, `handle_api_get_task_progress`,
-- `handle_api_find_task`. The tables that two of them search are in Tables.
pub mod Answers
pub mod Listed
pub mod Effects
mod Tests
use ps4rpi.Prelude.{
  ℕ, ◌+◌, ◌-◌, ◌^◌, Bool, true, false, Option, none, some, List, [], ◌∷◌, ◌++◌, if◌then◌else◌,
  Bytes, codes, str_eq,
}
use ps4rpi.Console.{Console, Log}
use ps4rpi.ContentId.{title_id_size, content_id_size}
use ps4rpi.Installer.{Installer, Answer, is_exists, get_size}
use ps4rpi.Bgft.{ProgressInfo, get_task_progress, find_task_by_content_id}
use ps4rpi.Bgft.Tasks.{TaskAction, UninstallAction, task_action, uninstall_action}
use ps4rpi.Tables.{
  TaskRow, UninstallRow, task_actions, uninstall_actions, find_task_row, find_uninstall_row,
}
use ps4rpi.Http.{JsonEscape}
use ps4rpi.Response.{Write, Argument, Reply, kick_result_header_json, kick_error_json, kick_error}
use ps4rpi.Request.{
  Json, Parsed, parsed, answered, ◌>>=◌, request_parse, request_id, request_int, request_task_id,
}

-- what a handler returns, what it sends, and the system calls made
pub record Handled : Type 0 where
  pub returned : Bool
  pub sent : Reply
  pub log : Log

-- the value of `ret`, which is not initialised, after a call that may store to it
abbrev pub stored_or : ℕ → Option ℕ → ℕ
stored_or before none = before
stored_or before (some code) = code

abbrev refused : Reply → Log → Handled
refused reply log = record { returned = false; sent = reply; log = log }

abbrev with_body : Write → Reply
with_body w = kick_result_header_json ++ (w ∷ [])

abbrev yes_no : Bool → Bytes
yes_no true = codes "true"
yes_no false = codes "false"

module _ {Node : Type 0} (json : Json Node) (np_escape : JsonEscape) (http_initialized : Bool)
    (k : Console) (s : Installer) (before : ℕ) where
  -- the tail that the handlers share: the body on success, or the error code
  abbrev report : {A : Type 0} → (Option A → Write) → Answer A → Handled
  report body a =
      if a.status
      then record { returned = true; sent = with_body (body a.value); log = a.log }
      else record {
        returned = true;
        sent = kick_error_json (stored_or before a.error);
        log = a.log;
      }

  abbrev success : Option (Unit {0}) → Write
  success _ = Write.writef "{ \"status\": \"success\" }\n" []

  uninstall_with : UninstallRow → Parsed Bytes → Log → Handled
  uninstall_with row (answered reply) log = refused reply log
  uninstall_with row (parsed id) log =
      report success (uninstall_action k row.action s (some id) log)

  uninstall_by : Option UninstallRow → Option Bytes → Log → Handled
  unfolding uninstall_with
  uninstall_by none in_data log =
      refused
        (kick_error np_escape http_initialized 404 (codes "Not found")
          (codes "Unknown uninstall action"))
        log
  uninstall_by (some row) in_data log =
      let id = do
        root ← request_parse json np_escape http_initialized in_data
        request_id json np_escape http_initialized root row.field row.id_size
      in uninstall_with row id log

  unfoldable pub handle_api_uninstall : Bytes → Option Bytes → Log → Handled
  unfolding uninstall_by
  handle_api_uninstall path in_data log =
      uninstall_by (find_uninstall_row path uninstall_actions) in_data log

  -- `size` where it can be read, else (unsigned long)-1
  abbrev size_of : Answer ℕ → ℕ
  size_of a = if a.status then stored_or (2 ^ 64 - 1) a.value else 2 ^ 64 - 1

  -- after a successful `app_inst_util_is_exists`
  exists_reply : Bytes → Option Bool → Log → Handled
  exists_reply id (some true) log =
      let a = get_size k s (some id) log in
      record {
        returned = true;
        sent = with_body (
            Write.writef "{ \"status\": \"success\", \"exists\": \"%s\", \"size\": 0x%lX }\n"
              (Argument.str (yes_no true) ∷ Argument.int (size_of a) ∷ []));
        log = a.log;
      }
  exists_reply id _ log = record {
    returned = true;
    sent = with_body (
        Write.writef "{ \"status\": \"success\", \"exists\": \"%s\" }\n"
          (Argument.str (yes_no false) ∷ []));
    log = log;
  }

  exists_with : Parsed Bytes → Log → Handled
  unfolding exists_reply
  exists_with (answered reply) log = refused reply log
  exists_with (parsed id) log =
      let a = is_exists k s (some id) log in
      if a.status then exists_reply id a.value a.log else record {
        returned = true;
        sent = kick_error_json (stored_or before a.error);
        log = a.log;
      }

  unfoldable pub handle_api_is_exists : Option Bytes → Log → Handled
  unfolding exists_with
  handle_api_is_exists in_data log =
      let id = do
        root ← request_parse json np_escape http_initialized in_data
        request_id json np_escape http_initialized root (codes "title_id") (title_id_size + 1)
      in exists_with id log

  task_with : TaskRow → Parsed ℕ → Log → Handled
  task_with row (answered reply) log = refused reply log
  task_with row (parsed task_id) log = report success (task_action k row.action s task_id log)

  task_by : Option TaskRow → Option Bytes → Log → Handled
  unfolding task_with
  task_by none in_data log =
      refused
        (kick_error np_escape http_initialized 404 (codes "Not found")
          (codes "Unknown task action"))
        log
  task_by (some row) in_data log =
      let task_id = do
        root ← request_parse json np_escape http_initialized in_data
        request_task_id json np_escape http_initialized root
      in task_with row task_id log

  unfoldable pub handle_api_task_action : Bytes → Option Bytes → Log → Handled
  unfolding task_by
  handle_api_task_action path in_data log = task_by (find_task_row path task_actions) in_data log

  -- the arguments in the order of the format
  progress_arguments : Option ProgressInfo → List Argument
  progress_arguments none = []
  progress_arguments (some p) =
      Argument.int p.bits
      ∷ Argument.int p.error_result
      ∷ Argument.int p.length
      ∷ Argument.int p.transferred
      ∷ Argument.int p.length_total
      ∷ Argument.int p.transferred_total
      ∷ Argument.int p.num_index
      ∷ Argument.int p.num_total
      ∷ Argument.int p.rest_sec
      ∷ Argument.int p.rest_sec_total
      ∷ Argument.int p.preparing_percent
      ∷ Argument.int p.local_copy_percent
      ∷ []

  progress_body : Option ProgressInfo → Write
  unfolding progress_arguments
  progress_body p =
      Write.writef
        "{ \"status\": \"success\", \"bits\": 0x%X, \"error\": %d, \"length\": 0x%lX, \"transferred\": 0x%lX, \"length_total\": 0x%lX, \"transferred_total\": 0x%lX, \"num_index\": %u, \"num_total\": %u, \"rest_sec\": %u, \"rest_sec_total\": %u, \"preparing_percent\": %d, \"local_copy_percent\": %d }\n"
        (progress_arguments p)

  progress_with : Parsed ℕ → Log → Handled
  unfolding progress_body
  progress_with (answered reply) log = refused reply log
  progress_with (parsed task_id) log = report progress_body (get_task_progress k s task_id true log)

  unfoldable pub handle_api_get_task_progress : Option Bytes → Log → Handled
  unfolding progress_with
  handle_api_get_task_progress in_data log =
      let task_id = do
        root ← request_parse json np_escape http_initialized in_data
        request_task_id json np_escape http_initialized root
      in progress_with task_id log

  -- `task_id` is -1 before the call
  find_body : Option ℕ → Write
  find_body task_id =
      Write.writef "{ \"status\": \"success\", \"task_id\": %d }\n"
        (Argument.int (stored_or (2 ^ 32 - 1) task_id) ∷ [])

  find_with : Parsed (Bytes × ℕ) → Log → Handled
  unfolding find_body
  find_with (answered reply) log = refused reply log
  find_with (parsed (content_id, sub_type)) log =
      report find_body (find_task_by_content_id k s (some content_id) sub_type log)

  unfoldable pub handle_api_find_task : Option Bytes → Log → Handled
  unfolding find_with
  handle_api_find_task in_data log =
      let fields = do
        root ← request_parse json np_escape http_initialized in_data
        content_id ←
            request_id json np_escape http_initialized root (codes "content_id")
              (content_id_size + 1)
        sub_type ← request_int json np_escape http_initialized root (codes "sub_type")
        parsed (content_id, sub_type)
      in find_with fields log
