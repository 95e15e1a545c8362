-- ===== src/Install/Register.antt =====
-- RPI/server.c, `install_pieces`: the task is registered for what was collected, the client is
-- answered, and the files that are not needed any more are removed.
pub mod Installs
pub mod HandedOver
use ps4rpi.Prelude.{
  [], ℕ, ◌-◌, ◌^◌, Bool, true, false, Option, none, some, List, ◌∷◌, ◌++◌, if◌then◌else◌, Bytes,
  codes,
}
use ps4rpi.Console.{Log}
use ps4rpi.Installer.{Answer}
use ps4rpi.Bgft.{register_package_task}
use ps4rpi.Disk.{Disk, unlink}
use ps4rpi.Sfo
use ps4rpi.Tls.{SslVerify, HttpState}
use ps4rpi.Response.{Write, Argument, Reply, kick_result_header_json, kick_error_json, kick_errorf}
use ps4rpi.Handlers.{stored_or}
use ps4rpi.Package.{World, Outcome, ok, thrown}
use ps4rpi.Install.{Site, get_language_id, ref_pkg_json_path, param_sfo_path, icon0_png_path}
use ps4rpi.Install.Collect.{Registration, collect}

-- what a handler returns and sends, the state, the files and the calls after it
pub record Installed : Type 0 where
  pub returned : Bool
  pub sent : Reply
  pub world : World
  pub log : Log

module _ (site : Site) where
  -- THROW_ERROR
  abbrev pub server_error : HttpState → Bytes → Reply
  server_error s message =
      kick_errorf site.np_escape s.http_initialized 500 (codes "Internal server error") message

  unlink_paths : Disk → Disk
  unlink_paths disk =
      unlink (icon0_png_path site)
        (unlink (param_sfo_path site) (unlink (ref_pkg_json_path site) disk))

  abbrev answer_of : Registration → Answer ℕ → Reply
  answer_of r a =
      if a.status
      then kick_result_header_json
        ++ (Write.writef "{ \"status\": \"success\", \"task_id\": %d, \"title\": \"%s\" }\n" (
              Argument.int (stored_or (2 ^ 32 - 1) a.value)
              ∷ Argument.str r.escaped_title_name
              ∷ [])
            ∷ [])
      else kick_error_json (stored_or site.before a.error)

  register : Outcome Registration → World → Log → Installed
  unfolding unlink_paths
  register (thrown message) w log = record {
    returned = false;
    sent = server_error w.state message;
    world = record w { disk = unlink_paths w.disk };
    log = log;
  }
  register (ok r) w log =
      let a = register_package_task site.console site.installer r.content_id r.task log in
      record {
        returned = true;
        sent = answer_of r a;
        world = record w { disk = unlink (param_sfo_path site) w.disk };
        log = a.log;
      }

  with_language : Option ℕ → (url : Bytes) → List Bytes → SslVerify → World → Log → Installed
  unfolding register collect
  with_language none url urls mode w log = record {
    returned = false;
    sent = server_error w.state (codes "Unable to get language id.");
    world = w;
    log = log;
  }
  with_language (some lang_id) url urls mode w log =
      let r = collect site url urls lang_id mode w in register r.0 r.1 log

  -- the pieces are the URL and those after it
  unfoldable pub install_pieces : (url : Bytes) → List Bytes → SslVerify → World → Log → Installed
  unfolding with_language
  install_pieces url urls mode w log = with_language (get_language_id site) url urls mode w log
