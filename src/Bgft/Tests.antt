-- ===== src/Bgft/Tests.antt =====
-- Downloads registered and acted on, and the services brought up and down.
use ps4rpi.Prelude.{
  ◌≡◌, ◌↔◌, ◌≢◌, refl, true, false, none, some, [], ◌∷◌, codes, inl, strchr, strrchr,
}
use ps4rpi.Console.{Call}
use ps4rpi.ContentId.{ContentInfo, parse_content_id}
use ps4rpi.Samples.{sample_console, running, sample_id, sample_info}
use ps4rpi.Bgft.{Package, register_package_task}
use ps4rpi.Bgft.Tasks.{TaskAction}
use ps4rpi.Bgft.Register.{IsReady, Registers, register_package_task-Registers, register_error_unset}
use ps4rpi.Bgft.Requests.{Operation, World, perform_all}
use ps4rpi.Bgft.Protocol.{IsConsistent, perform_all-IsConsistent}

abbrev game : Package
game = record {
  content_url = codes "http://10.0.0.2:12800/static/tmp_1.json";
  content_name = codes "Title";
  icon_path = none;
  package_type = codes "PS4GD";
  package_sub_type = none;
  package_size = 1048576;
  is_patch = false;
}

readable : parse_content_id (some sample_id) ≡ some sample_info
unfolding parse_content_id strchr strrchr
readable = refl

ready : IsReady sample_console running sample_id game []
ready = record {
  app_up = refl;
  bgft_up = refl;
  info = sample_info;
  readable = readable;
  user_known = refl;
}

register_package_task-Registers_example : Registers sample_console running sample_id game []
register_package_task-Registers_example =
    register_package_task-Registers sample_console running sample_id game []

register_error_unset_example :
    let answer = register_package_task sample_console running sample_id game [] in
    ((answer.status ≡ false) × (answer.error ≡ none)) ↔ (
      (running.app_inst_util_initialized ≡ true)
      × (running.bgft_initialized ≡ true)
      × ((info : ContentInfo) × (parse_content_id (some sample_id) ≡ some info))
      × (sample_console.ret [] Call.get_foreground_user ≢ 0))
register_error_unset_example = register_error_unset sample_console running sample_id game []

-- before anything is initialised
abbrev fresh : World
fresh = record {
  state = record { app_inst_util_initialized = false; bgft_initialized = false; bgft_heap = 0 };
  log = [];
}

fresh-IsConsistent : IsConsistent sample_console fresh
fresh-IsConsistent = record {
  app = refl;
  bgft = refl;
  heap = refl;
  heap_used = inl (refl, refl);
  follows = tt;
}

perform_all-IsConsistent_example : IsConsistent sample_console (
    perform_all sample_console
      (Operation.init_app
        ∷ Operation.init_bgft
        ∷ Operation.register sample_id game
        ∷ Operation.task TaskAction.pause 7
        ∷ Operation.fini_bgft
        ∷ Operation.fini_app
        ∷ [])
      fresh)
perform_all-IsConsistent_example =
    perform_all-IsConsistent sample_console
      (Operation.init_app
        ∷ Operation.init_bgft
        ∷ Operation.register sample_id game
        ∷ Operation.task TaskAction.pause 7
        ∷ Operation.fini_bgft
        ∷ Operation.fini_app
        ∷ [])
      fresh fresh-IsConsistent
