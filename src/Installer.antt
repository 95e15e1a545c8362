-- ===== src/Installer.antt =====
-- RPI/installer.c: the gate in front of the console's install (AppInstUtil) and background download
-- (BGFT) services. This file has the state of both and the functions of the first; Bgft has those of
-- the second. The state is the file's static variables. A function that leaves them alone takes
-- them and returns an answer: what it returns, what it stores through `error` and its out pointer,
-- if anything, and the log of system calls. Messages to the kernel log are left out.
use ps4rpi.Prelude.{
  ℕ, ◌*◌, Bool, true, false, not, Option, none, some, ◌∷◌, ◌==◌, if◌then◌else◌, Bytes,
}
use ps4rpi.Console.{Console, Call, Log}
use ps4rpi.ContentId.{ContentInfo, parse_content_id}

pub record Installer : Type 0 where
  pub app_inst_util_initialized : Bool
  pub bgft_initialized : Bool
  -- `s_bgft_init_params.heap`
  pub bgft_heap : ℕ

pub record Answer (A : Type 0) : Type 0 where
  pub status : Bool
  pub error : Option ℕ
  pub value : Option A
  pub log : Log

pub record Change : Type 0 where
  pub status : Bool
  pub state : Installer
  pub log : Log

abbrev pub bgft_heap_size : ℕ
bgft_heap_size = 1 * 1024 * 1024

abbrev pub same_application_already_installed : ℕ
same_application_already_installed = 0x80990088

module _ (k : Console) where
  -- `*error = code; goto err`
  abbrev pub fail : {A : Type 0} → ℕ → Log → Answer A
  fail code log = record { status = false; error = some code; value = none; log = log }

  -- A call whose result is an error unless it is 0; on success `stored` goes to the out pointer.
  abbrev pub finish : {A : Type 0} → Call → (Log → Option A) → Log → Answer A
  finish c stored log =
      let r = k.ret log c in
      if r == 0
      then record { status = true; error = none; value = stored log; log = c ∷ log }
      else record { status = false; error = some r; value = none; log = c ∷ log }

  abbrev pub nothing : Log → Option (Unit {0})
  nothing log = none

  unfoldable pub app_inst_util_init : Installer → Log → Change
  app_inst_util_init s log =
      if s.app_inst_util_initialized
      then record { status = true; state = s; log = log }
      else if k.ret log Call.app_inst_util_initialize == 0
      then record {
        status = true;
        state = record s { app_inst_util_initialized = true };
        log = Call.app_inst_util_initialize ∷ log;
      }
      else record {
        status = false;
        state = record s { app_inst_util_initialized = false };
        log = Call.app_inst_util_initialize ∷ log;
      }

  -- returns nothing; the status is not read
  unfoldable pub app_inst_util_fini : Installer → Log → Change
  app_inst_util_fini s log =
      if not s.app_inst_util_initialized
      then record { status = true; state = s; log = log }
      else record {
        status = true;
        state = record s { app_inst_util_initialized = false };
        log = Call.app_inst_util_terminate ∷ log;
      }

  unfoldable pub uninstall_game : Installer → Option Bytes → Log → Answer (Unit {0})
  uninstall_game s none log =
      if not s.app_inst_util_initialized then fail k.enxio log else fail k.einval log
  uninstall_game s (some title_id) log =
      if not s.app_inst_util_initialized
      then fail k.enxio log
      else finish (Call.app_uninstall title_id) nothing log

  abbrev uninstall_addcont : Option ContentInfo → Log → Answer (Unit {0})
  uninstall_addcont none log = fail k.einval log
  uninstall_addcont (some info) log =
      finish (Call.app_uninstall_addcont info.title_id info.label) nothing log

  unfoldable pub uninstall_ac : Installer → Option Bytes → Log → Answer (Unit {0})
  uninstall_ac s none log =
      if not s.app_inst_util_initialized then fail k.enxio log else fail k.einval log
  uninstall_ac s (some content_id) log =
      if not s.app_inst_util_initialized
      then fail k.enxio log
      else uninstall_addcont (parse_content_id (some content_id)) log

  unfoldable pub uninstall_patch : Installer → Option Bytes → Log → Answer (Unit {0})
  uninstall_patch s none log =
      if not s.app_inst_util_initialized then fail k.enxio log else fail k.einval log
  uninstall_patch s (some title_id) log =
      if not s.app_inst_util_initialized
      then fail k.enxio log
      else finish (Call.app_uninstall_pat title_id) nothing log

  unfoldable pub uninstall_theme : Installer → Option Bytes → Log → Answer (Unit {0})
  uninstall_theme s none log =
      if not s.app_inst_util_initialized then fail k.enxio log else fail k.einval log
  uninstall_theme s (some content_id) log =
      if not s.app_inst_util_initialized
      then fail k.enxio log
      else finish (Call.app_uninstall_theme content_id) nothing log

  -- `*exists = flag`, from int to bool
  unfoldable pub is_exists : Installer → Option Bytes → Log → Answer Bool
  is_exists s none log =
      if not s.app_inst_util_initialized then fail k.enxio log else fail k.einval log
  is_exists s (some title_id) log =
      if not s.app_inst_util_initialized
      then fail k.enxio log
      else let c = Call.app_exists title_id in finish c (λ l. some (not (k.out l c == 0))) log

  unfoldable pub get_size : Installer → Option Bytes → Log → Answer ℕ
  get_size s none log =
      if not s.app_inst_util_initialized then fail k.enxio log else fail k.einval log
  get_size s (some title_id) log =
      if not s.app_inst_util_initialized
      then fail k.enxio log
      else let c = Call.app_get_size title_id in finish c (λ l. some (k.out l c)) log
