-- ===== src/Bgft/Requests.antt =====
-- The operations of RPI/installer.c as one alphabet, and what a sequence of them does. Requests are
-- served by threads of their own, so any sequence can come.
use ps4rpi.Prelude.{ℕ, Bool, Option, List, [], ◌∷◌, Bytes}
use ps4rpi.Console.{Console, Log}
use ps4rpi.Installer.{
  Installer, Answer, Change, app_inst_util_init, app_inst_util_fini, is_exists, get_size,
}
use ps4rpi.Bgft.{
  Package, bgft_init, bgft_fini, register_package_task, reregister_task_patch, get_task_progress,
  find_task_by_content_id,
}
use ps4rpi.Bgft.Tasks.{TaskAction, UninstallAction, task_action, uninstall_action}

pub data Operation : Type 0 where
  init_app fini_app init_bgft fini_bgft : Operation
  uninstall : UninstallAction → Option Bytes → Operation
  exists size : Option Bytes → Operation
  register : Bytes → Package → Operation
  task : TaskAction → ℕ → Operation
  reregister : ℕ → Operation
  progress : ℕ → Bool → Operation
  find : Option Bytes → ℕ → Operation

pub record World : Type 0 where
  pub state : Installer
  pub log : Log

module _ (k : Console) where
  abbrev changed : Change → World
  changed c = record { state = c.state; log = c.log }

  abbrev answered : {A : Type 0} → Installer → Answer A → World
  answered s a = record { state = s; log = a.log }

  unfoldable pub perform : Operation → World → World
  perform init_app w = changed (app_inst_util_init k w.state w.log)
  perform fini_app w = changed (app_inst_util_fini k w.state w.log)
  perform init_bgft w = changed (bgft_init k w.state w.log)
  perform fini_bgft w = changed (bgft_fini k w.state w.log)
  perform (uninstall a id) w = answered w.state (uninstall_action k a w.state id w.log)
  perform (exists id) w = answered w.state (is_exists k w.state id w.log)
  perform (size id) w = answered w.state (get_size k w.state id w.log)
  perform (register id p) w = answered w.state (register_package_task k w.state id p w.log)
  perform (task a id) w = answered w.state (task_action k a w.state id w.log)
  perform (reregister id) w = answered w.state (reregister_task_patch k w.state id w.log)
  perform (progress id wanted) w = answered w.state (get_task_progress k w.state id wanted w.log)
  perform (find id sub_type) w =
      answered w.state (find_task_by_content_id k w.state id sub_type w.log)

  unfoldable pub perform_all : List Operation → World → World
  perform_all [] w = w
  perform_all (o ∷ os) w = perform_all os (perform o w)
