-- ===== src/Console.antt =====
-- The console's system libraries, which the program calls and which are not in the repository.
-- A value of type int is its 32-bit pattern, a pointer is a number with 0 for null. What a call
-- answers may depend on all calls before it; the calls made are the log, the latest first.
use ps4rpi.Prelude.{ℕ, ◌-◌, ◌^◌, Bool, List, leb, Bytes}

-- `struct` of the SDK that a download is registered with; the fields that the program sets.
pub record DownloadParam : Type 0 where
  pub entitlement_type : ℕ
  pub user_id : ℕ
  pub id : Bytes
  pub content_url : Bytes
  pub content_name : Bytes
  pub icon_path : Bytes
  pub playgo_scenario_id : Bytes
  pub option : ℕ
  pub package_type : Bytes
  pub package_sub_type : Bytes
  pub package_size : ℕ

-- `OrbisBgftTaskProgress`
pub record TaskProgress : Type 0 where
  pub bits : ℕ
  pub error_result : ℕ
  pub length : ℕ
  pub transferred : ℕ
  pub length_total : ℕ
  pub transferred_total : ℕ
  pub num_index : ℕ
  pub num_total : ℕ
  pub rest_sec : ℕ
  pub rest_sec_total : ℕ
  pub preparing_percent : ℕ
  pub local_copy_percent : ℕ

-- the system modules that the program loads
pub data SystemModule : Type 0 where
  syscore system_service user_service netctl net http ssl app_inst_util bgft np_common :
      SystemModule

pub data Call : Type 0 where
  malloc : ℕ → Call
  free : ℕ → Call
  load_module : SystemModule → Call
  unload_module : SystemModule → Call
  app_inst_util_initialize app_inst_util_terminate : Call
  app_uninstall app_uninstall_pat app_uninstall_theme : Bytes → Call
  app_uninstall_addcont : Bytes → Bytes → Call
  app_exists app_get_size : Bytes → Call
  bgft_service_init : ℕ → Call
  bgft_service_term : Call
  get_foreground_user : Call
  register_task debug_register_pkg : DownloadParam → Call
  start_task stop_task pause_task resume_task unregister_task : ℕ → Call
  reregister_task_patch get_progress : ℕ → Call
  find_task_by_content_id : Bytes → ℕ → Call

abbrev pub Log : Type 0
Log = List Call

pub record Console : Type 0 where
  -- the value that the call returns
  pub ret : Log → Call → ℕ
  -- the number that it stores through its out pointer
  pub out : Log → Call → ℕ
  pub out_progress : Log → Call → TaskProgress
  -- constants of the SDK's headers
  pub enxio : ℕ
  pub einval : ℕ
  pub sub_type_unknown : ℕ
  pub sub_type_max : ℕ
  pub opt_disable_cdn_query_param : ℕ

-- `x < 0` for an int
abbrev pub is_negative : ℕ → Bool
is_negative x = leb (2 ^ 31) x

-- (int)-1
abbrev pub minus_one : ℕ
minus_one = 2 ^ 32 - 1
