-- ===== src/Bgft/Protocol.antt =====
-- The console is called by its protocol: no service before it is initialised or after it is
-- terminated, none initialised twice, no argument outside its contract, and the memory of the
-- download service owned exactly while the service runs.
use ps4rpi.Prelude.{
  ℕ, ◌≡◌, ◌≢◌, Bool, true, false, Option, Option-cases, none, some, List, [], ◌∷◌, arith, ltb, ◌==◌,
  Bytes, inl, inr, ◌⊎◌, length,
}
use ps4rpi.Console.{Console, Call, Log, is_negative}
use ps4rpi.ContentId.{parse_content_id}
use ps4rpi.ContentId.Sound.{parse_content_id_sound}
use ps4rpi.Installer.{
  app_inst_util_init, app_inst_util_fini, is_exists, get_size, uninstall_game, uninstall_ac,
  uninstall_patch, uninstall_theme,
}
use ps4rpi.Bgft.{
  Package, registered, bgft_init, bgft_fini, register_package_task, start_task, stop_task,
  pause_task, resume_task, unregister_task, reregister_task_patch, get_task_progress,
  find_task_by_content_id,
}
use ps4rpi.Bgft.Tasks.{TaskAction, UninstallAction, task_action, uninstall_action}
use ps4rpi.Bgft.Requests.{Operation, World, perform, perform_all}

module _ (k : Console) where
  -- what the log says of the two services and of the memory that the program owns
  abbrev pub app_up : Log → Bool
  app_up [] = false
  app_up (Call.app_inst_util_initialize ∷ log) = k.ret log Call.app_inst_util_initialize == 0
  app_up (Call.app_inst_util_terminate ∷ log) = false
  app_up (_ ∷ log) = app_up log

  abbrev pub bgft_up : Log → Bool
  bgft_up [] = false
  bgft_up (Call.bgft_service_init p ∷ log) = k.ret log (Call.bgft_service_init p) == 0
  bgft_up (Call.bgft_service_term ∷ log) = false
  bgft_up (_ ∷ log) = bgft_up log

  abbrev pub owned : Log → ℕ
  owned [] = 0
  owned (Call.malloc n ∷ log) = k.ret log (Call.malloc n)
  owned (Call.free p ∷ log) = 0
  owned (_ ∷ log) = owned log

  -- The call may come after those of the log.
  abbrev pub IsAllowed : Call → Log → Type 0
  IsAllowed (Call.malloc n) log = owned log ≡ 0
  IsAllowed (Call.free p) log = (owned log ≡ p) × (p ≢ 0) × (bgft_up log ≡ false)
  IsAllowed (Call.load_module m) log = Unit
  IsAllowed (Call.unload_module m) log = Unit
  IsAllowed Call.app_inst_util_initialize log = app_up log ≡ false
  IsAllowed Call.app_inst_util_terminate log = app_up log ≡ true
  IsAllowed (Call.app_uninstall id) log = app_up log ≡ true
  IsAllowed (Call.app_uninstall_pat id) log = app_up log ≡ true
  IsAllowed (Call.app_uninstall_theme id) log = app_up log ≡ true
  IsAllowed (Call.app_uninstall_addcont title label) log =
      (app_up log ≡ true) × (length title ≡ 9) × (length label ≡ 16)
  IsAllowed (Call.app_exists id) log = app_up log ≡ true
  IsAllowed (Call.app_get_size id) log = app_up log ≡ true
  IsAllowed (Call.bgft_service_init p) log = (bgft_up log ≡ false) × (owned log ≡ p) × (p ≢ 0)
  IsAllowed Call.bgft_service_term log = bgft_up log ≡ true
  IsAllowed Call.get_foreground_user log = Unit
  IsAllowed (Call.register_task d) log =
      (app_up log ≡ true) × (bgft_up log ≡ true) × (length d.id ≡ 36)
  IsAllowed (Call.debug_register_pkg d) log =
      (app_up log ≡ true) × (bgft_up log ≡ true) × (length d.id ≡ 36)
  IsAllowed (Call.start_task id) log = (bgft_up log ≡ true) × (is_negative id ≡ false)
  IsAllowed (Call.stop_task id) log = (bgft_up log ≡ true) × (is_negative id ≡ false)
  IsAllowed (Call.pause_task id) log = (bgft_up log ≡ true) × (is_negative id ≡ false)
  IsAllowed (Call.resume_task id) log = (bgft_up log ≡ true) × (is_negative id ≡ false)
  IsAllowed (Call.unregister_task id) log = (bgft_up log ≡ true) × (is_negative id ≡ false)
  IsAllowed (Call.reregister_task_patch id) log = (bgft_up log ≡ true) × (is_negative id ≡ false)
  IsAllowed (Call.get_progress id) log = (bgft_up log ≡ true) × (is_negative id ≡ false)
  IsAllowed (Call.find_task_by_content_id id t) log =
      (bgft_up log ≡ true) × (ltb k.sub_type_unknown t ≡ true) × (ltb t k.sub_type_max ≡ true)

  abbrev pub FollowsProtocol : Log → Type 0
  FollowsProtocol [] = Unit
  FollowsProtocol (c ∷ log) = IsAllowed c log × FollowsProtocol log

  -- The static variables say what the log says.
  pub record IsConsistent (w : World) : Type 0 where
    pub app : w.state.app_inst_util_initialized ≡ app_up w.log
    pub bgft : w.state.bgft_initialized ≡ bgft_up w.log
    pub heap : w.state.bgft_heap ≡ owned w.log
    pub heap_used :
        ((w.state.bgft_initialized ≡ false) × (w.state.bgft_heap ≡ 0))
        ⊎ ((w.state.bgft_initialized ≡ true) × (w.state.bgft_heap ≢ 0))
    pub follows : FollowsProtocol w.log

  module _ (w : World) (h : IsConsistent w) where
    init_app-IsConsistent : IsConsistent (perform k Operation.init_app w)
    unfolding perform app_inst_util_init
    init_app-IsConsistent = ground arith

    fini_app-IsConsistent : IsConsistent (perform k Operation.fini_app w)
    unfolding perform app_inst_util_fini
    fini_app-IsConsistent = ground arith

    init_bgft-IsConsistent : IsConsistent (perform k Operation.init_bgft w)
    unfolding perform bgft_init
    init_bgft-IsConsistent = ground arith

    fini_bgft-IsConsistent : IsConsistent (perform k Operation.fini_bgft w)
    unfolding perform bgft_fini
    fini_bgft-IsConsistent = ground arith

    exists-IsConsistent : (id : Option Bytes) → IsConsistent (perform k (Operation.exists id) w)
    unfolding perform is_exists
    exists-IsConsistent none = ground arith
    exists-IsConsistent (some id) = ground arith

    size-IsConsistent : (id : Option Bytes) → IsConsistent (perform k (Operation.size id) w)
    unfolding perform get_size
    size-IsConsistent none = ground arith
    size-IsConsistent (some id) = ground arith

    task-IsConsistent : (a : TaskAction) (id : ℕ) → IsConsistent (perform k (Operation.task a id) w)
    unfolding perform task_action start_task stop_task pause_task resume_task unregister_task
    task-IsConsistent TaskAction.start id = ground arith
    task-IsConsistent _ id = ground arith

    reregister-IsConsistent : (id : ℕ) → IsConsistent (perform k (Operation.reregister id) w)
    unfolding perform reregister_task_patch
    reregister-IsConsistent id = ground arith

    progress-IsConsistent :
        (id : ℕ) (wanted : Bool) → IsConsistent (perform k (Operation.progress id wanted) w)
    unfolding perform get_task_progress
    progress-IsConsistent id wanted = ground arith

    find-IsConsistent :
        (id : Option Bytes) (t : ℕ) → IsConsistent (perform k (Operation.find id t) w)
    unfolding perform find_task_by_content_id
    find-IsConsistent none t = ground arith
    find-IsConsistent (some id) t = ground arith

    uninstall_ac-IsConsistent :
        (id : Bytes) → IsConsistent (perform k (Operation.uninstall UninstallAction.ac (some id)) w)
    unfolding perform uninstall_action uninstall_ac
    uninstall_ac-IsConsistent id = elim (Option-cases (parse_content_id (some id))) [
      | inl bad ↦ rw bad (ground arith)
      | inr (info, good) ↦
          let split = parse_content_id_sound id good in
          let title = split.title_length in let label = split.label_length in rw good (ground arith)
    ]

    uninstall-IsConsistent :
        (a : UninstallAction) (id : Option Bytes)
        → IsConsistent (perform k (Operation.uninstall a id) w)
    unfolding perform uninstall_action uninstall_game uninstall_patch uninstall_theme uninstall_ac
    uninstall-IsConsistent UninstallAction.ac none = ground arith
    uninstall-IsConsistent UninstallAction.ac (some id) = uninstall_ac-IsConsistent id
    uninstall-IsConsistent _ none = ground arith
    uninstall-IsConsistent _ (some id) = ground arith

    register-IsConsistent :
        (id : Bytes) (p : Package) → IsConsistent (perform k (Operation.register id p) w)
    unfolding perform register_package_task registered
    register-IsConsistent id p = elim (Option-cases (parse_content_id (some id))) [
      | inl bad ↦ rw bad (ground arith)
      | inr (info, good) ↦
          let split = parse_content_id_sound id good in
          let len : length id ≡ 36 = rw split.whole at split.whole_length in rw good (ground arith)
    ]

    perform-IsConsistent : (o : Operation) → IsConsistent (perform k o w)
    perform-IsConsistent Operation.init_app = init_app-IsConsistent
    perform-IsConsistent Operation.fini_app = fini_app-IsConsistent
    perform-IsConsistent Operation.init_bgft = init_bgft-IsConsistent
    perform-IsConsistent Operation.fini_bgft = fini_bgft-IsConsistent
    perform-IsConsistent (Operation.uninstall a id) = uninstall-IsConsistent a id
    perform-IsConsistent (Operation.exists id) = exists-IsConsistent id
    perform-IsConsistent (Operation.size id) = size-IsConsistent id
    perform-IsConsistent (Operation.register id p) = register-IsConsistent id p
    perform-IsConsistent (Operation.task a id) = task-IsConsistent a id
    perform-IsConsistent (Operation.reregister id) = reregister-IsConsistent id
    perform-IsConsistent (Operation.progress id wanted) = progress-IsConsistent id wanted
    perform-IsConsistent (Operation.find id t) = find-IsConsistent id t

  -- Whatever operations are made one after the other from a consistent state, the static variables
  -- keep saying what the calls made say, and every call made follows the protocol: a service is
  -- initialised once at a time and used only while it is up, task ids are not negative, what names
  -- additional content has its two lengths, and the memory of the download service is allocated
  -- once at a time, not null, given to the service, and freed only when that is down.
  pub perform_all-IsConsistent :
      (os : List Operation) (w : World) → IsConsistent w → IsConsistent (perform_all k os w)
  unfolding perform_all
  perform_all-IsConsistent [] w h = h
  perform_all-IsConsistent (o ∷ os) w h =
      perform_all-IsConsistent os (perform k o w) (perform-IsConsistent w h o)
