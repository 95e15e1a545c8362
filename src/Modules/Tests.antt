-- ===== src/Modules/Tests.antt =====
-- The modules loaded on a console where every call succeeds, and on one where the sixth fails.
use ps4rpi.Prelude.{ℕ, ◌≡◌, refl, true, false, []}
use ps4rpi.Console.{Console, Call, Log, SystemModule}
use ps4rpi.Samples.{sample_console}
use ps4rpi.Modules.{load_modules}
use ps4rpi.Modules.Rollback.{all_modules, rev_onto, LoadedOrNot, load_modules_all_or_nothing}

abbrev failing_ret : Log → Call → ℕ
failing_ret log (Call.load_module SystemModule.http) = 0x80020002
failing_ret log _ = 0

abbrev failing : Console
failing = record {
  ret = failing_ret;
  out = sample_console.out;
  out_progress = sample_console.out_progress;
  enxio = 6;
  einval = 22;
  sub_type_unknown = 0;
  sub_type_max = 20;
  opt_disable_cdn_query_param = 1;
}

fails : (load_modules failing false []).status ≡ false
unfolding load_modules
fails = refl

loads : (load_modules sample_console false []).status ≡ true
unfolding load_modules
loads = refl

load_modules_all_or_nothing_example :
    LoadedOrNot failing (rev_onto all_modules []) [] (load_modules failing false [])
load_modules_all_or_nothing_example = load_modules_all_or_nothing failing [] [] refl
