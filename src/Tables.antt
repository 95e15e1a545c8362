-- ===== src/Tables.antt =====
-- RPI/server.c, the tables `s_task_actions` and `s_uninstall_actions` and the loops that search them.
use ps4rpi.Prelude.{ℕ, ◌+◌, Option, none, some, List, [], ◌∷◌, if◌then◌else◌, Bytes, codes, str_eq}
use ps4rpi.ContentId.{title_id_size, content_id_size}
use ps4rpi.Bgft.Tasks.{TaskAction, UninstallAction}

-- a row of `s_task_actions`
pub record TaskRow : Type 0 where
  pub path : Bytes
  pub action : TaskAction

abbrev pub task_actions : List TaskRow
task_actions =
    record { path = codes "/api/start_task"; action = TaskAction.start }
    ∷ record { path = codes "/api/stop_task"; action = TaskAction.stop }
    ∷ record { path = codes "/api/pause_task"; action = TaskAction.pause }
    ∷ record { path = codes "/api/resume_task"; action = TaskAction.resume }
    ∷ record { path = codes "/api/unregister_task"; action = TaskAction.unregister }
    ∷ []

-- a row of `s_uninstall_actions`
pub record UninstallRow : Type 0 where
  pub path : Bytes
  pub action : UninstallAction
  pub field : Bytes
  pub id_size : ℕ

abbrev pub uninstall_actions : List UninstallRow
uninstall_actions =
    record {
      path = codes "/api/uninstall_game";
      action = UninstallAction.game;
      field = codes "title_id";
      id_size = title_id_size + 1;
    }
    ∷ record {
      path = codes "/api/uninstall_ac";
      action = UninstallAction.ac;
      field = codes "content_id";
      id_size = content_id_size + 1;
    }
    ∷ record {
      path = codes "/api/uninstall_patch";
      action = UninstallAction.patch;
      field = codes "title_id";
      id_size = title_id_size + 1;
    }
    ∷ record {
      path = codes "/api/uninstall_theme";
      action = UninstallAction.theme;
      field = codes "content_id";
      id_size = content_id_size + 1;
    }
    ∷ []

-- the loops over the tables, to the first row with the path
unfoldable pub find_task_row : Bytes → List TaskRow → Option TaskRow
find_task_row path [] = none
find_task_row path (r ∷ rows) = if str_eq path r.path then some r else find_task_row path rows

unfoldable pub find_uninstall_row : Bytes → List UninstallRow → Option UninstallRow
find_uninstall_row path [] = none
find_uninstall_row path (r ∷ rows) =
    if str_eq path r.path then some r else find_uninstall_row path rows
