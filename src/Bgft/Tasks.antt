-- ===== src/Bgft/Tasks.antt =====
-- The functions that act on one task or remove one title, by the action that the tables of
-- RPI/server.c (`s_task_actions`, `s_uninstall_actions`) point at them with.
use ps4rpi.Prelude.{
  ℕ, ◌≡◌, refl, true, false, not, Bool-cases, Option, none, some, ◌∷◌, arith, if◌then◌else◌, Bytes,
  inl, inr, ◌↔◌, ◌≢◌,
}
use ps4rpi.Console.{Console, Call, Log, is_negative}
use ps4rpi.ContentId.{ContentInfo, parse_content_id}
use ps4rpi.Installer.{
  Installer, Answer, fail, finish, nothing, uninstall_game, uninstall_ac, uninstall_patch,
  uninstall_theme,
}
use ps4rpi.Bgft.{start_task, stop_task, pause_task, resume_task, unregister_task}

pub data TaskAction : Type 0 where
  start stop pause resume unregister : TaskAction

pub data UninstallAction : Type 0 where
  game ac patch theme : UninstallAction

-- the call that the action is for
abbrev pub task_call : TaskAction → ℕ → Call
task_call start = Call.start_task
task_call stop = Call.stop_task
task_call pause = Call.pause_task
task_call resume = Call.resume_task
task_call unregister = Call.unregister_task

module _ (k : Console) where
  -- the `fn` column of `s_task_actions`
  unfoldable pub task_action : TaskAction → Installer → ℕ → Log → Answer (Unit {0})
  task_action start = start_task k
  task_action stop = stop_task k
  task_action pause = pause_task k
  task_action resume = resume_task k
  task_action unregister = unregister_task k

  -- the `fn` column of `s_uninstall_actions`
  unfoldable pub uninstall_action :
      UninstallAction → Installer → Option Bytes → Log → Answer (Unit {0})
  uninstall_action game = uninstall_game k
  uninstall_action ac = uninstall_ac k
  uninstall_action patch = uninstall_patch k
  uninstall_action theme = uninstall_theme k

  -- What an answer tells of the calls made: no call and an error of the program's own, or one call,
  -- whose result decides.
  pub data Reports (c : Call) (log : Log) (r : Answer (Unit {0})) : Type 0 where
    refused : (code : ℕ) → r.status ≡ false → r.error ≡ some code → r.log ≡ log → Reports c log r
    done : r.status ≡ true → r.error ≡ none → k.ret log c ≡ 0 → r.log ≡ c ∷ log → Reports c log r
    failed :
        r.status ≡ false
        → r.error ≡ some (k.ret log c)
        → k.ret log c ≢ 0
        → r.log ≡ c ∷ log
        → Reports c log r

  finish-Reports : (c : Call) (log : Log) → Reports c log (finish k c (nothing k) log)
  finish-Reports c log = grind (arith, done, failed)

  unfoldable pub task_gate : Installer → ℕ → Call → Log → Answer (Unit {0})
  task_gate s task_id c log =
      if not s.bgft_initialized
      then fail k k.enxio log
      else if is_negative task_id
      then fail k k.einval log
      else finish k c (nothing k) log

  pub task_action-task_gate :
      (a : TaskAction) (s : Installer) (task_id : ℕ) (log : Log)
      → task_action a s task_id log ≡ task_gate s task_id (task_call a task_id) log
  unfolding task_action task_gate start_task stop_task pause_task resume_task unregister_task
  task_action-task_gate start s task_id log = ground arith
  task_action-task_gate _ s task_id log = ground arith

  task_gate-Reports :
      (s : Installer) (task_id : ℕ) (c : Call) (log : Log)
      → Reports c log (task_gate s task_id c log)
  unfolding task_gate
  task_gate-Reports s task_id c log = elim (Bool-cases s.bgft_initialized) [
    | inr down ↦ rw down (refused k.enxio refl refl refl)
    | inl up ↦ elim (Bool-cases (is_negative task_id)) [
      | inl negative ↦ rw (up, negative) (refused k.einval refl refl refl)
      | inr fine ↦ rw (up, fine) (finish-Reports c log)
    ]
  ]

  task_gate_iff :
      (s : Installer) (task_id : ℕ) (c : Call) (log : Log)
      → ((task_gate s task_id c log).status ≡ true)
        ↔ ((s.bgft_initialized ≡ true) × (is_negative task_id ≡ false) × (k.ret log c ≡ 0))
  unfolding task_gate
  task_gate_iff s task_id c log = ground arith

  -- Each of the five task functions succeeds exactly when the service is initialised, the task id
  -- is not negative and its own call returns 0. It makes that one call or none, says which error
  -- stopped it, and stores no error on success.
  pub task_action_lem :
      (a : TaskAction) (s : Installer) (task_id : ℕ) (log : Log)
      → (((task_action a s task_id log).status ≡ true) ↔ (
          (s.bgft_initialized ≡ true)
          × (is_negative task_id ≡ false)
          × (k.ret log (task_call a task_id) ≡ 0)))
        × Reports (task_call a task_id) log (task_action a s task_id log)
  task_action_lem a s task_id log = rw (task_action-task_gate a s task_id log) (
    task_gate_iff s task_id (task_call a task_id) log,
    task_gate-Reports s task_id (task_call a task_id) log,
  )

  -- The call that removes what the id names, where the id can be read.
  abbrev pub addcont_call : Option ContentInfo → Option Call
  addcont_call none = none
  addcont_call (some info) = some (Call.app_uninstall_addcont info.title_id info.label)

  abbrev pub uninstall_call : UninstallAction → Bytes → Option Call
  uninstall_call game id = some (Call.app_uninstall id)
  uninstall_call ac id = addcont_call (parse_content_id (some id))
  uninstall_call patch id = some (Call.app_uninstall_pat id)
  uninstall_call theme id = some (Call.app_uninstall_theme id)

  unfoldable pub app_gate : Installer → Option Call → Log → Answer (Unit {0})
  app_gate s none log =
      if not s.app_inst_util_initialized then fail k k.enxio log else fail k k.einval log
  app_gate s (some c) log =
      if not s.app_inst_util_initialized then fail k k.enxio log else finish k c (nothing k) log

  pub uninstall_action-app_gate :
      (a : UninstallAction) (s : Installer) (id : Bytes) (log : Log)
      → uninstall_action a s (some id) log ≡ app_gate s (uninstall_call a id) log
  unfolding uninstall_action app_gate uninstall_game uninstall_ac uninstall_patch uninstall_theme
  uninstall_action-app_gate ac s id log = ground arith
  uninstall_action-app_gate _ s id log = ground arith

  abbrev pub ReportsOn : Option Call → Log → Answer (Unit {0}) → Type 0
  ReportsOn none log r = (r.status ≡ false) × (r.log ≡ log)
  ReportsOn (some c) log r = Reports c log r

  app_gate-ReportsOn :
      (s : Installer) (c : Option Call) (log : Log) → ReportsOn c log (app_gate s c log)
  unfolding app_gate
  app_gate-ReportsOn s none log = ground arith
  app_gate-ReportsOn s (some c) log = elim (Bool-cases s.app_inst_util_initialized) [
    | inr down ↦ rw down (refused k.enxio refl refl refl)
    | inl up ↦ rw up (finish-Reports c log)
  ]

  app_gate_iff :
      (s : Installer) (o : Option Call) (log : Log)
      → ((app_gate s o log).status ≡ true)
        ↔ ((s.app_inst_util_initialized ≡ true) × ((c : Call) × (o ≡ some c) × (k.ret log c ≡ 0)))
  unfolding app_gate
  app_gate_iff s none log = ground arith
  app_gate_iff s (some c) log =
      (λ e. (ground arith, (c, refl, ground arith)), λ (up, (d, same, zero)). ground arith)

  -- Each of the four uninstall functions succeeds exactly when the service is initialised, its id
  -- can be read (a content id, for additional content) and its own call returns 0. It makes that
  -- one call or none, says which error stopped it, and stores no error on success.
  pub uninstall_action_lem :
      (a : UninstallAction) (s : Installer) (id : Bytes) (log : Log)
      → (((uninstall_action a s (some id) log).status ≡ true) ↔ (
          (s.app_inst_util_initialized ≡ true)
          × ((c : Call) × (uninstall_call a id ≡ some c) × (k.ret log c ≡ 0))))
        × ReportsOn (uninstall_call a id) log (uninstall_action a s (some id) log)
  uninstall_action_lem a s id log =
      rw (uninstall_action-app_gate a s id log)
        (app_gate_iff s (uninstall_call a id) log, app_gate-ReportsOn s (uninstall_call a id) log)
