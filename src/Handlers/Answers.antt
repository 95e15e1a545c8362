-- ===== src/Handlers/Answers.antt =====
-- Every request to the five endpoints gets one response, and one that is turned away makes no
-- system call.
use ps4rpi.Prelude.{
  ℕ, ◌+◌, ◌≡◌, refl, Bool, true, false, Bool-cases, Option, none, some, ◌⊎◌, inl, inr, Bytes, codes,
}
use ps4rpi.Console.{Console, Log}
use ps4rpi.ContentId.{title_id_size, content_id_size}
use ps4rpi.Installer
use ps4rpi.Installer.{Installer, is_exists}
use ps4rpi.Bgft.{get_task_progress, find_task_by_content_id}
use ps4rpi.Bgft.Tasks.{task_action, uninstall_action}
use ps4rpi.Http.{JsonEscape}
use ps4rpi.Response.{Reply, Write, kick_result_header_json}
use ps4rpi.Response.Shape.{IsResponse, kick_error-IsResponse, kick_error_json-IsResponse}
use ps4rpi.Request.{
  Json, Parsed, parsed, answered, ◌>>=◌, request_parse, request_id, request_int, request_task_id,
}
use ps4rpi.Request.Refusals.{
  Ensures, Ensures-bind, request_parse-Ensures, request_id-Ensures, request_int-Ensures,
  request_task_id-Ensures,
}
use ps4rpi.Tables.{
  TaskRow, UninstallRow, task_actions, uninstall_actions, find_task_row, find_uninstall_row,
}
use ps4rpi.Handlers.{
  Handled, refused, report, success, with_body, uninstall_with, uninstall_by, handle_api_uninstall,
  exists_reply, exists_with, handle_api_is_exists, task_with, task_by, handle_api_task_action,
  progress_with, progress_body, find_body, handle_api_get_task_progress, find_with,
  handle_api_find_task,
}

-- A request that was served has a response with the code 200. One that was turned away has one with
-- the code 400 or 404, and no system call was made.
abbrev pub IsServed : Log → Handled → Type 0
IsServed log h =
    ((h.returned ≡ true) × IsResponse 200 h.sent)
    ⊎ ((h.returned ≡ false) × (h.log ≡ log) × (IsResponse 400 h.sent ⊎ IsResponse 404 h.sent))

module _ {Node : Type 0} (json : Json Node) (np_escape : JsonEscape) (http_initialized : Bool)
    (k : Console) (s : Installer) (before : ℕ) where
  -- a parsed value is there, or the reply has the code 400
  abbrev IsRefusal : {A : Type 0} → Parsed A → Type 0
  IsRefusal {A} m = Ensures {A = A} (λ _. Unit {0}) m

  Ensures-IsRefusal : {A : Type 0} (P : A → Type 0) (m : Parsed A) → Ensures P m → IsRefusal m
  Ensures-IsRefusal P (parsed a) h = tt
  Ensures-IsRefusal P (answered r) h = h

  body-IsRefusal :
      {A : Type 0} (in_data : Option Bytes) (f : Node → Parsed A)
      → ((root : Node) → IsRefusal (f root))
      → IsRefusal (request_parse json np_escape http_initialized in_data >>= f)
  body-IsRefusal in_data f next =
      Ensures-bind _ _ (request_parse json np_escape http_initialized in_data) f
        (request_parse-Ensures json np_escape http_initialized in_data) (λ root _. next root)

  id-IsRefusal :
      (in_data : Option Bytes) (name : Bytes) (size : ℕ)
      → IsRefusal (
          request_parse json np_escape http_initialized in_data >>= λ root.
          request_id json np_escape http_initialized root name size)
  id-IsRefusal in_data name size = body-IsRefusal in_data _ λ root.
      Ensures-IsRefusal _ _ (request_id-Ensures json np_escape http_initialized root name size)

  task_id-IsRefusal :
      (in_data : Option Bytes)
      → IsRefusal (
          request_parse json np_escape http_initialized in_data >>= λ root.
          request_task_id json np_escape http_initialized root)
  task_id-IsRefusal in_data =
      body-IsRefusal in_data _
        λ root. Ensures-IsRefusal _ _ (request_task_id-Ensures json np_escape http_initialized root)

  find-IsRefusal :
      (in_data : Option Bytes)
      → IsRefusal (
          request_parse json np_escape http_initialized in_data >>= λ root.
          request_id json np_escape http_initialized root (codes "content_id") (content_id_size + 1)
          >>= λ content_id.
              request_int json np_escape http_initialized root (codes "sub_type") >>= λ sub_type.
              let r : Parsed (Bytes × ℕ) = parsed (content_id, sub_type) in r)
  find-IsRefusal in_data = body-IsRefusal in_data _ λ root.
      Ensures-bind _ _
        (request_id json np_escape http_initialized root (codes "content_id") (content_id_size + 1))
        _
        (request_id-Ensures json np_escape http_initialized root (codes "content_id")
          (content_id_size + 1))
        λ id _.
          Ensures-bind _ _ (request_int json np_escape http_initialized root (codes "sub_type")) _
            (request_int-Ensures json np_escape http_initialized root (codes "sub_type"))
            (λ n _. tt)

  refused-IsServed :
      (reply : Reply) (log : Log) → IsResponse 400 reply → IsServed log (refused reply log)
  refused-IsServed reply log h = inr (refl, refl, inl h)

  missing-IsServed :
      (reply : Reply) (log : Log) → IsResponse 404 reply → IsServed log (refused reply log)
  missing-IsServed reply log h = inr (refl, refl, inr h)

  report-IsServed :
      {A : Type 0} (body : Option A → Write) (a : Installer.Answer A) (log : Log)
      → ((o : Option A) → IsResponse 200 (with_body (body o)))
      → IsServed log (report json np_escape http_initialized k s before body a)
  report-IsServed body a log ok = elim (Bool-cases a.status) [
    | inl good ↦ rw good (inl (refl, ok a.value))
    | inr bad ↦ rw bad (inl (refl, kick_error_json-IsResponse _))
  ]

  success-IsResponse :
      (o : Option (Unit {0}))
      → IsResponse 200 (with_body (success json np_escape http_initialized k s before o))
  unfolding kick_result_header_json
  success-IsResponse o = (refl, refl)

  uninstall_with-IsServed :
      (row : UninstallRow) (m : Parsed Bytes) (log : Log)
      → IsRefusal m
      → IsServed log (uninstall_with json np_escape http_initialized k s before row m log)
  unfolding uninstall_with
  uninstall_with-IsServed row (answered reply) log h = refused-IsServed reply log h
  uninstall_with-IsServed row (parsed id) log h =
      report-IsServed _ (uninstall_action k row.action s (some id) log) log success-IsResponse

  uninstall_by-IsServed :
      (row : Option UninstallRow) (in_data : Option Bytes) (log : Log)
      → IsServed log (uninstall_by json np_escape http_initialized k s before row in_data log)
  unfolding uninstall_by
  uninstall_by-IsServed none in_data log =
      missing-IsServed _ log (kick_error-IsResponse np_escape http_initialized 404 _ _)
  uninstall_by-IsServed (some row) in_data log =
      uninstall_with-IsServed row _ log (id-IsRefusal in_data row.field row.id_size)

  task_with-IsServed :
      (row : TaskRow) (m : Parsed ℕ) (log : Log)
      → IsRefusal m
      → IsServed log (task_with json np_escape http_initialized k s before row m log)
  unfolding task_with
  task_with-IsServed row (answered reply) log h = refused-IsServed reply log h
  task_with-IsServed row (parsed task_id) log h =
      report-IsServed _ (task_action k row.action s task_id log) log success-IsResponse

  task_by-IsServed :
      (row : Option TaskRow) (in_data : Option Bytes) (log : Log)
      → IsServed log (task_by json np_escape http_initialized k s before row in_data log)
  unfolding task_by
  task_by-IsServed none in_data log =
      missing-IsServed _ log (kick_error-IsResponse np_escape http_initialized 404 _ _)
  task_by-IsServed (some row) in_data log = task_with-IsServed row _ log (task_id-IsRefusal in_data)

  progress_with-IsServed :
      (m : Parsed ℕ) (log : Log)
      → IsRefusal m
      → IsServed log (progress_with json np_escape http_initialized k s before m log)
  unfolding progress_with kick_result_header_json
  progress_with-IsServed (answered reply) log h = refused-IsServed reply log h
  progress_with-IsServed (parsed task_id) log h =
      report-IsServed (progress_body json np_escape http_initialized k s before)
        (get_task_progress k s task_id true log) log (λ o. (refl, refl))

  find_with-IsServed :
      (m : Parsed (Bytes × ℕ)) (log : Log)
      → IsRefusal m
      → IsServed log (find_with json np_escape http_initialized k s before m log)
  unfolding find_with kick_result_header_json
  find_with-IsServed (answered reply) log h = refused-IsServed reply log h
  find_with-IsServed (parsed (id, t)) log h =
      report-IsServed (find_body json np_escape http_initialized k s before)
        (find_task_by_content_id k s (some id) t log) log (λ o. (refl, refl))

  exists_reply-IsServed :
      (id : Bytes) (o : Option Bool) (log0 log : Log)
      → IsServed log0 (exists_reply json np_escape http_initialized k s before id o log)
  unfolding exists_reply kick_result_header_json
  exists_reply-IsServed id (some true) log0 log = inl (refl, (refl, refl))
  exists_reply-IsServed id (some false) log0 log = inl (refl, (refl, refl))
  exists_reply-IsServed id none log0 log = inl (refl, (refl, refl))

  exists_with-IsServed :
      (m : Parsed Bytes) (log : Log)
      → IsRefusal m
      → IsServed log (exists_with json np_escape http_initialized k s before m log)
  exists_with-IsServed (answered reply) log h = unfold exists_with in refused-IsServed reply log h
  exists_with-IsServed (parsed id) log h = elim (Bool-cases (is_exists k s (some id) log).status) [
    | inl good ↦ unfold exists_with in rw good (exists_reply-IsServed id _ log _)
    | inr bad ↦ unfold exists_with in rw bad (inl (refl, kick_error_json-IsResponse _))
  ]

  -- Each of the five endpoints answers a request with one response. Where the handler returns
  -- true the response has the code 200; a request that it turns away has a response
  -- with the code 400 or 404, and no system call is made for it.
  pub handlers-IsServed :
      (path : Bytes) (in_data : Option Bytes) (log : Log)
      → IsServed log
          (handle_api_uninstall json np_escape http_initialized k s before path in_data log)
        × IsServed log (handle_api_is_exists json np_escape http_initialized k s before in_data log)
        × IsServed log
            (handle_api_task_action json np_escape http_initialized k s before path in_data log)
        × IsServed log
            (handle_api_get_task_progress json np_escape http_initialized k s before in_data log)
        × IsServed log (handle_api_find_task json np_escape http_initialized k s before in_data log)
  unfolding handle_api_uninstall handle_api_is_exists handle_api_task_action
      handle_api_get_task_progress handle_api_find_task
  handlers-IsServed path in_data log = (
    uninstall_by-IsServed (find_uninstall_row path uninstall_actions) in_data log,
    exists_with-IsServed _ log (id-IsRefusal in_data (codes "title_id") (title_id_size + 1)),
    task_by-IsServed (find_task_row path task_actions) in_data log,
    progress_with-IsServed _ log (task_id-IsRefusal in_data),
    find_with-IsServed _ log (find-IsRefusal in_data),
  )
