-- ===== src/Handlers/Listed.antt =====
-- The paths that the tables of actions of RPI/server.c have, and the calls that they are for.
use ps4rpi.Prelude.{
  ℕ, sym, List, All, str_eq, str_eq_iff, codes, ◌≡◌, true, Bool-cases, Option-cases, Option, none,
  some, [], ◌∷◌, inl, inr, Bytes,
}
use mathlib.Core.Path.{subst}
use ps4rpi.ContentId.{ContentInfo, parse_content_id}
use ps4rpi.Console.{Console, Call}
use ps4rpi.Bgft.Tasks.{UninstallAction, task_call, uninstall_call}
use ps4rpi.Tables.{
  TaskRow, UninstallRow, task_actions, uninstall_actions, find_task_row, find_uninstall_row,
}

-- The path of a task endpoint, and the call that it is for.
pub data Task : Bytes → (ℕ → Call) → Type 0 where
  start : Task (codes "/api/start_task") Call.start_task
  stop : Task (codes "/api/stop_task") Call.stop_task
  pause : Task (codes "/api/pause_task") Call.pause_task
  resume : Task (codes "/api/resume_task") Call.resume_task
  unregister : Task (codes "/api/unregister_task") Call.unregister_task

-- The path of an uninstall endpoint: the field of the id, the size of its buffer, and the call for an
-- id, which there is none of where additional content has an id that cannot be read.
pub data Uninstall (id : Bytes) : Bytes → Bytes → ℕ → Option Call → Type 0 where
  game :
      Uninstall id
        (codes "/api/uninstall_game")
        (codes "title_id")
        10
        (some (Call.app_uninstall id))
  ac :
      {info : ContentInfo}
      → parse_content_id (some id) ≡ some info
      → Uninstall id
          (codes "/api/uninstall_ac")
          (codes "content_id")
          37
          (some (Call.app_uninstall_addcont info.title_id info.label))
  ac_unread :
      parse_content_id (some id) ≡ none
      → Uninstall id (codes "/api/uninstall_ac") (codes "content_id") 37 none
  patch :
      Uninstall id
        (codes "/api/uninstall_patch")
        (codes "title_id")
        10
        (some (Call.app_uninstall_pat id))
  theme :
      Uninstall id
        (codes "/api/uninstall_theme")
        (codes "content_id")
        37
        (some (Call.app_uninstall_theme id))

-- a row that is found is one that the tables have, with its own path
task_row :
    (P : TaskRow → Type 0) (path : Bytes) (rows : List TaskRow) {r : TaskRow}
    → All (λ q. str_eq path q.path ≡ true → P q) rows
    → find_task_row path rows ≡ some r
    → P r
unfolding find_task_row
task_row P path [] all e = cc
task_row P path (q ∷ rows) {r} (one, all) e = elim (Bool-cases (str_eq path q.path)) [
  | inl here ↦ let same : q ≡ r = cc (rw here at e) in subst P same (one here)
  | inr other ↦ task_row P path rows all (rw other at e)
]

uninstall_row :
    (P : UninstallRow → Type 0) (path : Bytes) (rows : List UninstallRow) {r : UninstallRow}
    → All (λ q. str_eq path q.path ≡ true → P q) rows
    → find_uninstall_row path rows ≡ some r
    → P r
unfolding find_uninstall_row
uninstall_row P path [] all e = cc
uninstall_row P path (q ∷ rows) {r} (one, all) e = elim (Bool-cases (str_eq path q.path)) [
  | inl here ↦ let same : q ≡ r = cc (rw here at e) in subst P same (one here)
  | inr other ↦ uninstall_row P path rows all (rw other at e)
]

-- a row whose path is the one that was asked for
at_path : (P : Bytes → Type 0) (path p : Bytes) → P p → str_eq path p ≡ true → P path
at_path P path p h e = subst P (sym ((str_eq_iff path p).0 e)) h

pub found_task :
    (path : Bytes) {r : TaskRow}
    → find_task_row path task_actions ≡ some r
    → Task path (task_call r.action)
found_task path =
    task_row (λ r. Task path (task_call r.action)) path task_actions
      (
        at_path (λ p. Task p Call.start_task) path _ start,
        (
          at_path (λ p. Task p Call.stop_task) path _ stop,
          (
            at_path (λ p. Task p Call.pause_task) path _ pause,
            (
              at_path (λ p. Task p Call.resume_task) path _ resume,
              (at_path (λ p. Task p Call.unregister_task) path _ unregister, tt),
            ),
          ),
        ),
      )

ac_call :
    (k : Console) (id : Bytes)
    → Uninstall id
        (codes "/api/uninstall_ac")
        (codes "content_id")
        37
        (uninstall_call k UninstallAction.ac id)
ac_call k id = elim (Option-cases (parse_content_id (some id))) [
  | inl unread ↦ rw unread (ac_unread unread)
  | inr (info, read) ↦ rw read (ac read)
]

pub found_uninstall :
    (k : Console) (id path : Bytes) {r : UninstallRow}
    → find_uninstall_row path uninstall_actions ≡ some r
    → Uninstall id path r.field r.id_size (uninstall_call k r.action id)
found_uninstall k id path =
    uninstall_row (λ r. Uninstall id path r.field r.id_size (uninstall_call k r.action id)) path
      uninstall_actions
      (
        at_path (λ p. Uninstall id p (codes "title_id") 10 (some (Call.app_uninstall id))) path _
            game,
        (
          at_path
              (λ p. Uninstall id p (codes "content_id") 37 (uninstall_call k UninstallAction.ac id))
              path _ (ac_call k id),
          (
            at_path (λ p. Uninstall id p (codes "title_id") 10 (some (Call.app_uninstall_pat id)))
                path _ patch,
            (
              at_path
                  (λ p. Uninstall id p (codes "content_id") 37 (some (Call.app_uninstall_theme id)))
                  path _ theme,
              tt,
            ),
          ),
        ),
      )
