-- ===== src/Bgft.antt =====
-- RPI/installer.c, the functions on the background download service (BGFT).
pub mod Tasks
pub mod Register
pub mod Requests
pub mod Protocol
mod Tests
use ps4rpi.Prelude.{
  ℕ, Bool, true, false, not, ◌&&◌, Option, none, some, ◌∷◌, ltb, ◌==◌, if◌then◌else◌, Bytes, codes,
}
use ps4rpi.Console.{Console, Call, DownloadParam, TaskProgress, Log, is_negative, minus_one}
use ps4rpi.ContentId.{ContentInfo, parse_content_id}
use ps4rpi.Installer.{
  Installer, Answer, Change, bgft_heap_size, same_application_already_installed, fail, finish,
  nothing,
}

-- `struct bgft_download_task_progress_info`
pub record ProgressInfo : Type 0 where
  pub bits : ℕ
  pub error_result : ℕ
  pub length : ℕ
  pub transferred : ℕ
  pub length_total : ℕ
  pub transferred_total : ℕ
  pub num_index : ℕ
  pub num_total : ℕ
  pub rest_sec : ℕ
  pub rest_sec_total : ℕ
  pub preparing_percent : ℕ
  pub local_copy_percent : ℕ

-- The arguments of a registration that come from the caller; `none` is a null pointer.
pub record Package : Type 0 where
  pub content_url : Bytes
  pub content_name : Bytes
  pub icon_path : Option Bytes
  pub package_type : Bytes
  pub package_sub_type : Option Bytes
  pub package_size : ℕ
  pub is_patch : Bool

-- `p ? p : ""`
abbrev pub or_empty : Option Bytes → Bytes
or_empty none = codes ""
or_empty (some s) = s

module _ (k : Console) where
  -- `if (heap) { free(heap); heap = NULL; }`
  abbrev release : ℕ → Log → Log
  release heap log = if heap == 0 then log else Call.free heap ∷ log

  unfoldable pub bgft_init : Installer → Log → Change
  bgft_init s log =
      if s.bgft_initialized
      then record { status = true; state = s; log = log }
      else let heap = k.ret log (Call.malloc bgft_heap_size) in
        let log1 = Call.malloc bgft_heap_size ∷ log in
        let log2 = Call.bgft_service_init heap ∷ log1 in
        if heap == 0
        then record {
          status = false;
          state = record s { bgft_initialized = false; bgft_heap = 0 };
          log = log1;
        }
        else if k.ret log1 (Call.bgft_service_init heap) == 0
        then record {
          status = true;
          state = record s { bgft_initialized = true; bgft_heap = heap };
          log = log2;
        }
        else record {
          status = false;
          state = record s { bgft_initialized = false; bgft_heap = 0 };
          log = release heap log2;
        }

  -- returns nothing; the status is not read
  unfoldable pub bgft_fini : Installer → Log → Change
  bgft_fini s log =
      if not s.bgft_initialized then record { status = true; state = s; log = log } else record {
        status = true;
        state = record s { bgft_initialized = false; bgft_heap = 0 };
        log = release s.bgft_heap (Call.bgft_service_term ∷ log);
      }

  abbrev pub download_param : ℕ → Bytes → Package → DownloadParam
  download_param user_id content_id p = record {
    entitlement_type = 5;
    user_id = user_id;
    id = content_id;
    content_url = p.content_url;
    content_name = p.content_name;
    icon_path = or_empty p.icon_path;
    playgo_scenario_id = codes "0";
    option = k.opt_disable_cdn_query_param;
    package_type = p.package_type;
    package_sub_type = or_empty p.package_sub_type;
    package_size = p.package_size;
  }

  -- the call that registers the package, by `is_patch`
  abbrev pub register_call : Bool → DownloadParam → Call
  register_call false params = Call.register_task params
  register_call true params = Call.debug_register_pkg params

  -- from the registering call on; the value is the task id stored
  registered : Call → Log → Answer ℕ
  registered c log =
      let ret = k.ret log c in
      if ret == 0
      then record { status = true; error = none; value = some (k.out log c); log = c ∷ log }
      else if ret == same_application_already_installed
      then record { status = true; error = some ret; value = some minus_one; log = c ∷ log }
      else record { status = false; error = some ret; value = none; log = c ∷ log }

  -- from the parsed content id on. Where the foreground user is not known, `error` is not stored.
  register_parsed : Option ContentInfo → Bytes → Package → Log → Answer ℕ
  unfolding registered
  register_parsed none content_id p log = fail k k.einval log
  register_parsed (some info) content_id p log =
      let log1 = Call.get_foreground_user ∷ log in
      let user_id = k.out log Call.get_foreground_user in
      if not (k.ret log Call.get_foreground_user == 0)
      then record { status = false; error = none; value = none; log = log1 }
      else registered (register_call p.is_patch (download_param user_id content_id p)) log1

  unfoldable pub register_package_task : Installer → Bytes → Package → Log → Answer ℕ
  unfolding register_parsed
  register_package_task s content_id p log =
      if not s.app_inst_util_initialized
      then fail k k.enxio log
      else if not s.bgft_initialized
      then fail k k.enxio log
      else register_parsed (parse_content_id (some content_id)) content_id p log

  unfoldable pub start_task : Installer → ℕ → Log → Answer (Unit {0})
  start_task s task_id log =
      if not s.bgft_initialized
      then fail k k.enxio log
      else if is_negative task_id
      then fail k k.einval log
      else finish k (Call.start_task task_id) (nothing k) log

  unfoldable pub stop_task : Installer → ℕ → Log → Answer (Unit {0})
  stop_task s task_id log =
      if not s.bgft_initialized
      then fail k k.enxio log
      else if is_negative task_id
      then fail k k.einval log
      else finish k (Call.stop_task task_id) (nothing k) log

  unfoldable pub pause_task : Installer → ℕ → Log → Answer (Unit {0})
  pause_task s task_id log =
      if not s.bgft_initialized
      then fail k k.enxio log
      else if is_negative task_id
      then fail k k.einval log
      else finish k (Call.pause_task task_id) (nothing k) log

  unfoldable pub resume_task : Installer → ℕ → Log → Answer (Unit {0})
  resume_task s task_id log =
      if not s.bgft_initialized
      then fail k k.enxio log
      else if is_negative task_id
      then fail k k.einval log
      else finish k (Call.resume_task task_id) (nothing k) log

  unfoldable pub unregister_task : Installer → ℕ → Log → Answer (Unit {0})
  unregister_task s task_id log =
      if not s.bgft_initialized
      then fail k k.enxio log
      else if is_negative task_id
      then fail k k.einval log
      else finish k (Call.unregister_task task_id) (nothing k) log

  -- the value is the new task id
  unfoldable pub reregister_task_patch : Installer → ℕ → Log → Answer ℕ
  reregister_task_patch s old_task_id log =
      if not s.bgft_initialized
      then fail k k.enxio log
      else if is_negative old_task_id
      then fail k k.einval log
      else let c = Call.reregister_task_patch old_task_id in finish k c (λ l. some (k.out l c)) log

  copy_progress : TaskProgress → ProgressInfo
  copy_progress t = record {
    bits = t.bits;
    error_result = t.error_result;
    length = t.length;
    transferred = t.transferred;
    length_total = t.length_total;
    transferred_total = t.transferred_total;
    num_index = t.num_index;
    num_total = t.num_total;
    rest_sec = t.rest_sec;
    rest_sec_total = t.rest_sec_total;
    preparing_percent = t.preparing_percent;
    local_copy_percent = t.local_copy_percent;
  }

  -- `wanted` says that the out pointer is not null
  unfoldable pub get_task_progress : Installer → ℕ → (wanted : Bool) → Log → Answer ProgressInfo
  unfolding copy_progress
  get_task_progress s task_id wanted log =
      if not s.bgft_initialized
      then fail k k.enxio log
      else if is_negative task_id
      then fail k k.einval log
      else if not wanted
      then fail k k.einval log
      else let c = Call.get_progress task_id in
        finish k c (λ l. some (copy_progress (k.out_progress l c))) log

  -- The enumeration of sub types has no negative member, so its members compare as unsigned.
  unfoldable pub find_task_by_content_id : Installer → Option Bytes → ℕ → Log → Answer ℕ
  find_task_by_content_id s none sub_type log =
      if not s.bgft_initialized then fail k k.enxio log else fail k k.einval log
  find_task_by_content_id s (some content_id) sub_type log =
      if not s.bgft_initialized
      then fail k k.enxio log
      else if not (ltb k.sub_type_unknown sub_type && ltb sub_type k.sub_type_max)
      then fail k k.einval log
      else let c = Call.find_task_by_content_id content_id sub_type in
        finish k c (λ l. some (k.out l c)) log
