-- ===== src/Handlers/Effects.antt =====
-- What a served request did: which call it made on the console, with which argument, and what the
-- client was told.
use ps4rpi.Prelude.{
  ℕ, ◌≡◌, ◌≢◌, refl, Bool, true, false, Bool-cases, Option, none, some, [], ◌∷◌, ◌⊎◌, inl, inr,
  Bytes, if◌then◌else◌, ◌==◌, ==_iff,
}
use ps4rpi.Console.{Console, Call, Log, is_negative}
use ps4rpi.Installer
use ps4rpi.Installer.{Installer, fail, finish, nothing}
use ps4rpi.Bgft.Tasks.{
  task_action, task_call, task_gate, task_action-task_gate, uninstall_call, app_gate,
  uninstall_action-app_gate,
}
use ps4rpi.Http.{JsonEscape}
use ps4rpi.Response.{Reply, Write, kick_error_json}
use ps4rpi.Request.{Json, json_pool_size, Parsed, parsed, answered, ◌>>=◌, request_parse}
use ps4rpi.Request.Refusals.{
  Ensures, Ensures-bind, Ensures-mono, IsTaskId, IsId, request_parse-Ensures, request_id-Ensures,
  request_task_id-Ensures,
}
use ps4rpi.Tables.{
  TaskRow, UninstallRow, task_actions, uninstall_actions, find_task_row, find_uninstall_row,
}
use ps4rpi.Handlers.Listed.{Task, Uninstall, found_task, found_uninstall}
use ps4rpi.Handlers.{
  Handled, report, success, with_body, uninstall_with, uninstall_by, handle_api_uninstall,
  task_with, task_by, handle_api_task_action,
}

-- the reply to an action that was done
abbrev pub success_reply : Reply
success_reply = with_body (Write.writef "{ \"status\": \"success\" }\n" [])

-- One call for a service that is up or not, and the reply: the call returned 0 and the client is
-- told of success; or the service is down, no call is made and the client is told the code for that;
-- or the call failed and the client is told the call's code.
abbrev pub Outcome : Console → (up : Bool) → Call → Log → Handled → Type 0
Outcome k up c log h =
    ((up ≡ true) × (k.ret log c ≡ 0) × (h.sent ≡ success_reply) × (h.log ≡ c ∷ log))
    ⊎ ((up ≡ false) × (h.sent ≡ kick_error_json k.enxio) × (h.log ≡ log))
    ⊎ ((up ≡ true)
        × (k.ret log c ≢ 0)
        × (h.sent ≡ kick_error_json (k.ret log c))
        × (h.log ≡ c ∷ log))

module _ {Node : Type 0} (json : Json Node) (np_escape : JsonEscape) (http_initialized : Bool)
    (k : Console) (s : Installer) (before : ℕ) where
  -- the body of the request is an object with this root
  abbrev pub HasRoot : Option Bytes → Node → Type 0
  HasRoot in_data root =
      (body : Bytes) × (in_data ≡ some body)
      × (body ≢ [])
      × (json.create body json_pool_size ≡ some root)

  body-Ensures :
      {A : Type 0} (P : Node → A → Type 0) (in_data : Option Bytes) (f : Node → Parsed A)
      → ((root : Node) → Ensures (P root) (f root))
      → Ensures
          (λ a. (root : Node) × HasRoot in_data root × P root a)
          (request_parse json np_escape http_initialized in_data >>= f)
  body-Ensures P in_data f next =
      Ensures-bind (HasRoot in_data) _ (request_parse json np_escape http_initialized in_data) f
        (request_parse-Ensures json np_escape http_initialized in_data)
        λ root has. Ensures-mono (P root) _ (f root) (next root) (λ a h. (root, has, h))

  abbrev told : Installer.Answer (Unit {0}) → Handled
  told a =
      report json np_escape http_initialized k s before
        (success json np_escape http_initialized k s before) a

  finish-Outcome :
      (up : Bool) (c : Call) (log : Log)
      → up ≡ true
      → Outcome k up c log (told (finish k c (nothing k) log))
  finish-Outcome up c log h = elim (Bool-cases (k.ret log c == 0)) [
    | inl zero ↦ rw zero (inl (h, (==_iff _ _).0 zero, refl, refl))
    | inr code ↦ rw code (inr (inr (h, (λ e. cc ((==_iff _ _).1 e)), refl, refl)))
  ]

  task-Outcome :
      (row : TaskRow) (task_id : ℕ) (log : Log)
      → is_negative task_id ≡ false
      → Outcome k s.bgft_initialized
          (task_call row.action task_id)
          log
          (told (task_action k row.action s task_id log))
  task-Outcome row task_id log fine =
      rw (task_action-task_gate k row.action s task_id log) (elim (Bool-cases s.bgft_initialized) [
        | inl up ↦
            unfold task_gate in
            rw (up, fine) (finish-Outcome true (task_call row.action task_id) log refl)
        | inr down ↦ unfold task_gate in rw down (inr (inl (refl, refl, refl)))
      ])

  -- What a request to a task endpoint came to.
  pub record TaskServed (path : Bytes) (in_data : Option Bytes) (log : Log) (h : Handled)
      : Type 0 where
    pub call : ℕ → Call
    pub listed : Task path call
    pub root : Node
    pub has_root : HasRoot in_data root
    pub task_id : ℕ
    pub is_task_id : IsTaskId json np_escape http_initialized root task_id
    pub outcome : Outcome k s.bgft_initialized (call task_id) log h

  task_with-TaskServed :
      (path : Bytes) (in_data : Option Bytes) (log : Log) (row : TaskRow) (m : Parsed ℕ)
      → find_task_row path task_actions ≡ some row
      → Ensures
          (λ id.
            (root : Node) × HasRoot in_data root × IsTaskId json np_escape http_initialized root id)
          m
      → (task_with json np_escape http_initialized k s before row m log).returned ≡ true
      → TaskServed path in_data log (task_with json np_escape http_initialized k s before row m log)
  unfolding task_with
  task_with-TaskServed path in_data log row (answered reply) listed h e = cc
  task_with-TaskServed path in_data log row (parsed id) listed (root, has_root, is_id) e = record {
    call = task_call row.action;
    listed = found_task path listed;
    root = root;
    has_root = has_root;
    task_id = id;
    is_task_id = is_id;
    outcome = task-Outcome row id log is_id.3;
  }

  task_by-TaskServed :
      (path : Bytes) (in_data : Option Bytes) (log : Log) (o : Option TaskRow)
      → find_task_row path task_actions ≡ o
      → (task_by json np_escape http_initialized k s before o in_data log).returned ≡ true
      → TaskServed path in_data log
          (task_by json np_escape http_initialized k s before o in_data log)
  unfolding task_by
  task_by-TaskServed path in_data log none listed e = cc
  task_by-TaskServed path in_data log (some row) listed e =
      task_with-TaskServed path in_data log row _ listed
        (body-Ensures (IsTaskId json np_escape http_initialized) in_data _
          (request_task_id-Ensures json np_escape http_initialized))
        e

  -- A task request that is served has one of the five paths, and named an integer task id that is not
  -- negative in 32 bits. Where the service is up, the one call of that path was made with that id; the
  -- client is told of success when it returned 0, and of its code otherwise. Where the service is
  -- down, no call was made and the client is told so.
  pub handle_api_task_action-TaskServed :
      (path : Bytes) (in_data : Option Bytes) (log : Log)
      → (handle_api_task_action json np_escape http_initialized k s before path in_data
          log).returned
        ≡ true
      → TaskServed path in_data log
          (handle_api_task_action json np_escape http_initialized k s before path in_data log)
  unfolding handle_api_task_action
  handle_api_task_action-TaskServed path in_data log =
      task_by-TaskServed path in_data log (find_task_row path task_actions) refl

  -- What an uninstall came to: the outcome of its call, or, for an id that names no call, an error
  -- with nothing done.
  abbrev pub UninstallOutcome : Option Call → Log → Handled → Type 0
  UninstallOutcome (some c) log h = Outcome k s.app_inst_util_initialized c log h
  UninstallOutcome none log h =
      (h.sent ≡ kick_error_json (if s.app_inst_util_initialized then k.einval else k.enxio))
      × (h.log ≡ log)

  app_gate-UninstallOutcome :
      (c : Option Call) (log : Log) → UninstallOutcome c log (told (app_gate k s c log))
  unfolding app_gate
  app_gate-UninstallOutcome none log = elim (Bool-cases s.app_inst_util_initialized) [
    | inl up ↦ rw up (refl, refl)
    | inr down ↦ rw down (refl, refl)
  ]
  app_gate-UninstallOutcome (some c) log = elim (Bool-cases s.app_inst_util_initialized) [
    | inl up ↦ rw up (finish-Outcome true c log refl)
    | inr down ↦ rw down (inr (inl (refl, refl, refl)))
  ]

  -- What a request to an uninstall endpoint came to.
  pub record UninstallServed (path : Bytes) (in_data : Option Bytes) (log : Log) (h : Handled)
      : Type 0 where
    pub field : Bytes
    pub id_size : ℕ
    pub root : Node
    pub has_root : HasRoot in_data root
    pub id : Bytes
    pub is_id : IsId json np_escape http_initialized root field id_size id
    pub call : Option Call
    pub listed : Uninstall id path field id_size call
    pub outcome : UninstallOutcome call log h

  uninstall_with-UninstallServed :
      (path : Bytes) (in_data : Option Bytes) (log : Log) (row : UninstallRow) (m : Parsed Bytes)
      → find_uninstall_row path uninstall_actions ≡ some row
      → Ensures
          (λ id.
            (root : Node) × HasRoot in_data root
            × IsId json np_escape http_initialized root row.field row.id_size id)
          m
      → (uninstall_with json np_escape http_initialized k s before row m log).returned ≡ true
      → UninstallServed path in_data log
          (uninstall_with json np_escape http_initialized k s before row m log)
  unfolding uninstall_with
  uninstall_with-UninstallServed path in_data log row (answered reply) listed h e = cc
  uninstall_with-UninstallServed path in_data log row (parsed id) listed (root, has_root, is_id) e =
      record {
        field = row.field;
        id_size = row.id_size;
        call = uninstall_call k row.action id;
        listed = found_uninstall k id path listed;
        root = root;
        has_root = has_root;
        id = id;
        is_id = is_id;
        outcome =
            rw (uninstall_action-app_gate k row.action s id log)
              (app_gate-UninstallOutcome (uninstall_call k row.action id) log);
      }

  uninstall_by-UninstallServed :
      (path : Bytes) (in_data : Option Bytes) (log : Log) (o : Option UninstallRow)
      → find_uninstall_row path uninstall_actions ≡ o
      → (uninstall_by json np_escape http_initialized k s before o in_data log).returned ≡ true
      → UninstallServed path in_data log
          (uninstall_by json np_escape http_initialized k s before o in_data log)
  unfolding uninstall_by
  uninstall_by-UninstallServed path in_data log none listed e = cc
  uninstall_by-UninstallServed path in_data log (some row) listed e =
      uninstall_with-UninstallServed path in_data log row _ listed
        (body-Ensures (λ root. IsId json np_escape http_initialized root row.field row.id_size)
          in_data _
          (λ root. request_id-Ensures json np_escape http_initialized root row.field row.id_size))
        e

  -- An uninstall request that is served has one of the four paths and, in the field of that path, a
  -- text id that is not empty, cut to the buffer of the path. Where the id names a call of the path
  -- and the service is up, that one call was made; the client is told of success when it returned 0,
  -- and of its code otherwise. In every other case no call was made and the client is told an error.
  pub handle_api_uninstall-UninstallServed :
      (path : Bytes) (in_data : Option Bytes) (log : Log)
      → (handle_api_uninstall json np_escape http_initialized k s before path in_data log).returned
        ≡ true
      → UninstallServed path in_data log
          (handle_api_uninstall json np_escape http_initialized k s before path in_data log)
  unfolding handle_api_uninstall
  handle_api_uninstall-UninstallServed path in_data log =
      uninstall_by-UninstallServed path in_data log (find_uninstall_row path uninstall_actions) refl
