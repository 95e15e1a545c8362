-- ===== src/Modules.antt =====
-- RPI/main.c, `load_modules` and `unload_modules`. The state is `s_modules_loaded`. The ladder of
-- `goto` labels is one function a label, each unloading its module and falling through to the next.
-- What an unloading call returns is only reported to the kernel log.
pub mod Rollback
mod Tests
use ps4rpi.Prelude.{ℕ, Bool, true, false, not, ◌∷◌, ◌==◌, if◌then◌else◌}
use ps4rpi.Console.{Console, Call, Log, SystemModule}

pub record Loading : Type 0 where
  pub status : Bool
  pub modules_loaded : Bool
  pub log : Log

abbrev pub unload : SystemModule → Log → Log
unload m log = Call.unload_module m ∷ log

err_unload_sys_core : Log → Log
err_unload_sys_core log = unload SystemModule.syscore log

err_unload_system_service : Log → Log
unfolding err_unload_sys_core
err_unload_system_service log = err_unload_sys_core (unload SystemModule.system_service log)

err_unload_user_service : Log → Log
unfolding err_unload_system_service
err_unload_user_service log = err_unload_system_service (unload SystemModule.user_service log)

err_unload_netctl : Log → Log
unfolding err_unload_user_service
err_unload_netctl log = err_unload_user_service (unload SystemModule.netctl log)

err_unload_net : Log → Log
unfolding err_unload_netctl
err_unload_net log = err_unload_netctl (unload SystemModule.net log)

err_unload_http : Log → Log
unfolding err_unload_net
err_unload_http log = err_unload_net (unload SystemModule.http log)

err_unload_ssl : Log → Log
unfolding err_unload_http
err_unload_ssl log = err_unload_http (unload SystemModule.ssl log)

err_unload_appinstutil : Log → Log
unfolding err_unload_ssl
err_unload_appinstutil log = err_unload_ssl (unload SystemModule.app_inst_util log)

err_unload_bgft : Log → Log
unfolding err_unload_appinstutil
err_unload_bgft log = err_unload_appinstutil (unload SystemModule.bgft log)

-- the label `err`
err : Log → Log
err log = log

module _ (k : Console) where
  -- One step: load `m`, and go on, or to the label `undo`.
  abbrev load : SystemModule → (undo : Log → Log) → (next : Log → Loading) → Log → Loading
  load m undo next log =
      let log' = Call.load_module m ∷ log in
      if k.ret log (Call.load_module m) == 0
      then next log'
      else record { status = false; modules_loaded = false; log = undo log' }

  unfoldable pub load_modules : Bool → Log → Loading
  unfolding err err_unload_bgft
  load_modules modules_loaded log =
      if modules_loaded
      then record { status = true; modules_loaded = true; log = log }
      else load SystemModule.syscore err
          (load SystemModule.system_service err_unload_sys_core (
            load SystemModule.user_service err_unload_system_service (
              load SystemModule.netctl err_unload_user_service (
                load SystemModule.net err_unload_netctl (
                  load SystemModule.http err_unload_net (
                    load SystemModule.ssl err_unload_http (
                      load SystemModule.app_inst_util err_unload_ssl (
                        load SystemModule.bgft err_unload_appinstutil (
                          load SystemModule.np_common err_unload_bgft
                            (λ l. record { status = true; modules_loaded = true; log = l }))))))))))
          log

  -- returns nothing; the status is not read
  unfoldable pub unload_modules : Bool → Log → Loading
  unload_modules modules_loaded log =
      if not modules_loaded
      then record { status = true; modules_loaded = false; log = log }
      else let log1 = unload SystemModule.np_common log in
        let log2 = unload SystemModule.bgft log1 in
        let log3 = unload SystemModule.app_inst_util log2 in
        let log4 = unload SystemModule.ssl log3 in
        let log5 = unload SystemModule.http log4 in
        let log6 = unload SystemModule.net log5 in
        let log7 = unload SystemModule.netctl log6 in
        let log8 = unload SystemModule.user_service log7 in
        let log9 = unload SystemModule.system_service log8 in
        let log10 = unload SystemModule.syscore log9 in
        record { status = true; modules_loaded = false; log = log10 }
