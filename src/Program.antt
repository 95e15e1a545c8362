-- ===== src/Program.antt =====
-- RPI/main.c: `main`, `jailbreak`, `unjailbreak`, `cleanup`. What the program keeps is the static
-- variables of its parts, each with the log of the calls that it made. The ladder of `goto` labels is
-- one function a label, each falling through to the next. `exit` runs `cleanup`, by `atexit`.
pub mod Parts
pub mod Labels
pub mod Stages
pub mod Settled
pub mod Flawless
mod Tests
use ps4rpi.Prelude.{
  ℕ, Bool, true, false, not, ◌&&◌, ◌||◌, Option, none, some, List, ◌∷◌, if◌then◌else◌, ◌==◌, Bytes,
  codes,
}
use ps4rpi.Console.{Console, Log, is_negative}
use ps4rpi.Installer.{Installer, app_inst_util_init, app_inst_util_fini}
use ps4rpi.Bgft.{bgft_init, bgft_fini}
use ps4rpi.Modules.{load_modules, unload_modules}
use ps4rpi.Files.{Source}
use ps4rpi.Request.{Json}
use ps4rpi.Tls.{TlsLibrary, TlsLog, HttpState}
use ps4rpi.Tls.Config.{http_init, http_fini}
use ps4rpi.Cleanup.{Directory}
use ps4rpi.Net.{NetLibrary, NetLog, NetState, net_init, net_fini, net_get_mem_id, net_get_ipv4}
use ps4rpi.Server.{
  ServerLog, ServerState, Listened, returned, listening, server_start, server_listen, server_stop,
}

pub data Export : Type 0 where
  jbc_get_cred jbc_jailbreak_cred jbc_set_cred : Export

pub data Cred : Type 0 where
  og jailbreak_cred : Cred

-- the calls that `main` and `jailbreak` make themselves
pub data ProgramCall : Type 0 where
  load_libjbc load_exec_exit : ProgramCall
  dlsym : Export → ProgramCall
  get_cred set_jailbreak : Cred → ProgramCall
  set_cred : Cred → ProgramCall
  user_service_init user_service_term : ProgramCall
  notify : (ip_address : Bytes) → (port : ℕ) → ProgramCall

-- what the program is run on
pub record Machine : Type 0 where
  pub console : Console
  pub tls : TlsLibrary
  pub files : Bytes → Source
  pub net : NetLibrary
  pub new_server : ServerLog → Bytes → Option ℕ
  pub directory : Directory
  -- the handle of libjbc, and which of its exports are there
  pub libjbc : ℕ
  pub exports : Export → Bool
  pub user_service_ret : ℕ

pub record App : Type 0 where
  pub jailbroken : Bool
  -- the pointer is not null
  pub has_set_cred : Bool
  pub modules_loaded : Bool
  pub installer : Installer
  pub net : NetState
  pub http : HttpState
  pub server : ServerState
  pub log : Log
  pub net_log : NetLog
  pub tls_log : TlsLog
  pub server_log : ServerLog
  pub calls : List ProgramCall

-- The program has exited, or listens still after the polls given.
pub data Run : Type 0 where
  exited : App → Run
  serving : App → Run

abbrev pub server_port : ℕ
server_port = 12801

abbrev pub work_dir : Bytes
work_dir = codes "/data"

abbrev pub note : ProgramCall → App → App
note call a = record a { calls = call ∷ a.calls }

-- the original credentials are handed back
unjailbreak : App → App
unjailbreak a =
    if a.jailbroken && a.has_set_cred
    then record a { jailbroken = false; calls = ProgramCall.set_cred Cred.og ∷ a.calls }
    else a

module _ {Node : Type 0} (json : Json Node) (m : Machine) where
  break_out : App → App
  break_out a =
      let looked =
        ProgramCall.dlsym Export.jbc_set_cred
        ∷ ProgramCall.dlsym Export.jbc_jailbreak_cred
        ∷ ProgramCall.dlsym Export.jbc_get_cred
        ∷ a.calls in
      if not (m.exports Export.jbc_get_cred)
        || not (m.exports Export.jbc_jailbreak_cred)
        || not (m.exports Export.jbc_set_cred)
      then record a {
        has_set_cred = m.exports Export.jbc_set_cred;
        calls = ProgramCall.load_exec_exit ∷ looked;
      }
      else record a {
        jailbroken = true;
        has_set_cred = m.exports Export.jbc_set_cred;
        calls =
            ProgramCall.set_cred Cred.jailbreak_cred
            ∷ ProgramCall.set_jailbreak Cred.jailbreak_cred
            ∷ ProgramCall.get_cred Cred.og
            ∷ looked;
      }

  -- a handle that is not positive is a failure; the caller goes on all the same
  jailbreak : App → App
  unfolding break_out
  jailbreak a =
      let a1 = note ProgramCall.load_libjbc a in
      if is_negative m.libjbc || m.libjbc == 0
      then note ProgramCall.load_exec_exit a1
      else break_out a1

  cleanup : App → App
  unfolding unjailbreak
  cleanup a =
      let r = unload_modules m.console a.modules_loaded a.log in
      unjailbreak (record a { modules_loaded = r.modules_loaded; log = r.log })

  -- the label `err`
  pub err : App → Run
  unfolding cleanup
  err a = exited (cleanup a)

  pub err_user_service_terminate : App → Run
  unfolding err
  err_user_service_terminate a = err (note ProgramCall.user_service_term a)

  pub err_appinstutil_finalize : App → Run
  unfolding err_user_service_terminate
  err_appinstutil_finalize a =
      let r = app_inst_util_fini m.console a.installer a.log in
      err_user_service_terminate (record a { installer = r.state; log = r.log })

  pub err_bgft_finalize : App → Run
  unfolding err_appinstutil_finalize
  err_bgft_finalize a =
      let r = bgft_fini m.console a.installer a.log in
      err_appinstutil_finalize (record a { installer = r.state; log = r.log })

  pub err_net_finalize : App → Run
  unfolding err_bgft_finalize
  err_net_finalize a =
      let r = net_fini a.net a.net_log in
      err_bgft_finalize (record a { net = r.state; net_log = r.log })

  pub err_http_finalize : App → Run
  unfolding err_net_finalize
  err_http_finalize a =
      let r = http_fini json m.tls m.files a.http a.tls_log in
      err_net_finalize (record a { http = r.state; tls_log = r.log })

  pub err_server_stop : App → Run
  unfolding err_http_finalize
  err_server_stop a =
      let r = server_stop a.server a.server_log in
      err_http_finalize (record a { server = r.0; server_log = r.1 })

  listened : App → Listened → Run
  unfolding err_server_stop
  listened a (returned status log) = err_server_stop (record a { server_log = log })
  listened a (listening log) = serving (record a { server_log = log })

  with_server : (polls : ℕ) → (ip_address : Bytes) → App → Run
  unfolding listened err_http_finalize
  with_server polls ip_address a =
      let r =
        server_start m.new_server m.directory (some ip_address) server_port (some work_dir) a.server
          a.server_log in
      let a1 = record a { server = r.state; server_log = r.log } in
      if not r.status
      then err_http_finalize a1
      else listened (note (ProgramCall.notify ip_address server_port) a1)
          (server_listen polls r.state r.log)

  with_http : (polls : ℕ) → (ip_address : Bytes) → App → Run
  unfolding with_server err_net_finalize
  with_http polls ip_address a =
      let r =
        http_init json m.tls m.files a.net.net_initialized (net_get_mem_id a.net) a.http
          a.tls_log in
      let a1 = record a { http = r.state; tls_log = r.log } in
      if not r.status then err_net_finalize a1 else with_server polls ip_address a1

  -- with what is in the buffer of 16 bytes
  with_address : (polls : ℕ) → Option Bytes → App → Run
  unfolding with_http err_net_finalize
  with_address polls none a = err_net_finalize a
  with_address polls (some ip_address) a = with_http polls ip_address a

  with_net : (polls : ℕ) → App → Run
  unfolding with_address err_bgft_finalize
  with_net polls a =
      let r = net_init m.net a.net a.net_log in
      let a1 = record a { net = r.state; net_log = r.log } in
      if not r.status
      then err_bgft_finalize a1
      else let address = net_get_ipv4 m.net 16 a1.net_log in
        with_address polls address.stored (record a1 { net_log = address.log })

  with_bgft : (polls : ℕ) → App → Run
  unfolding with_net err_appinstutil_finalize
  with_bgft polls a =
      let r = bgft_init m.console a.installer a.log in
      let a1 = record a { installer = r.state; log = r.log } in
      if not r.status then err_appinstutil_finalize a1 else with_net polls a1

  with_app_inst_util : (polls : ℕ) → App → Run
  unfolding with_bgft err_user_service_terminate
  with_app_inst_util polls a =
      let r = app_inst_util_init m.console a.installer a.log in
      let a1 = record a { installer = r.state; log = r.log } in
      if not r.status then err_user_service_terminate a1 else with_bgft polls a1

  pub with_modules : (polls : ℕ) → App → Run
  unfolding with_app_inst_util err
  with_modules polls a =
      let a1 = note ProgramCall.user_service_init a in
      if not (m.user_service_ret == 0) then err a1 else with_app_inst_util polls a1

  -- the loop of the server is followed for a number of polls
  unfoldable pub main : (polls : ℕ) → App → Run
  unfolding jailbreak with_modules err
  main polls a0 =
      let a = jailbreak a0 in
      let r = load_modules m.console a.modules_loaded a.log in
      let a1 = record a { modules_loaded = r.modules_loaded; log = r.log } in
      if not r.status then err a1 else with_modules polls a1
