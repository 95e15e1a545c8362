-- ===== src/Server.antt =====
-- RPI/server.c, the lifetime of the server: `server_start`, `server_listen`, `server_stop`. The calls on
-- sandbird and the pauses are a log, the latest first. `strdup` is taken to have memory, since its
-- result is not looked at.
pub mod Lifetime
mod Tests
use ps4rpi.Prelude.{
  [], ℕ, zero, suc, ◌*◌, Bool, true, false, not, Option, none, some, List, ◌∷◌, if◌then◌else◌, take,
  Bytes,
}
use ps4rpi.Text.Decimal.{decimal_int}
use ps4rpi.Cleanup.{Directory, cleanup_temp_files}

-- `sb_new_server` with the port in its options, `sb_poll_server`, `sceKernelUsleep`, `sb_close_server`
pub data ServerCall : Type 0 where
  new_server : (port_str : Bytes) → ServerCall
  poll_server : (server : Option ℕ) → ServerCall
  usleep : (microseconds : ℕ) → ServerCall
  close_server : (server : Option ℕ) → ServerCall

abbrev pub ServerLog : Type 0
ServerLog = List ServerCall

-- the static variables; none is a null pointer
pub record ServerState : Type 0 where
  pub server : Option ℕ
  pub ip_address : Option Bytes
  pub port : ℕ
  pub work_dir : Option Bytes
  pub server_started : Bool

-- what `server_start` returns, and the files that it unlinks
pub record Started : Type 0 where
  pub status : Bool
  pub state : ServerState
  pub log : ServerLog
  pub unlinked : List Bytes

-- a loop that has ended, or that is still running after the polls given
pub data Listened : Type 0 where
  returned : (status : Bool) → ServerLog → Listened
  listening : ServerLog → Listened

abbrev pub server_poll_interval_us : ℕ
server_poll_interval_us = 10 * 1000

err_free_ip_address : ServerState → ServerLog → List Bytes → Started
err_free_ip_address s log unlinked = record {
  status = false;
  state = record s { ip_address = none };
  log = log;
  unlinked = unlinked;
}

err_work_dir_free : ServerState → ServerLog → List Bytes → Started
unfolding err_free_ip_address
err_work_dir_free s log unlinked = err_free_ip_address (record s { work_dir = none }) log unlinked

-- the server made, or a null pointer
serve : Option ℕ → ServerState → ServerLog → List Bytes → Started
unfolding err_work_dir_free
serve none s log unlinked = err_work_dir_free (record s { server = none }) log unlinked
serve (some server) s log unlinked = record {
  status = true;
  state = record s { server = some server; server_started = true };
  log = log;
  unlinked = unlinked;
}

-- The calls of the while loop. A poll accepts a connection and has it served by `event_handler`,
-- which writes none of the static variables of the server, nor do the handlers; what the poll returns
-- is printed and the loop goes on. So the state is the same at every test of the loop.
listen : (polls : ℕ) → ServerState → ServerLog → Listened
listen zero s log = listening log
listen (suc polls) s log =
    let rest =
      listen polls s
        (ServerCall.usleep server_poll_interval_us ∷ ServerCall.poll_server s.server ∷ log) in
    if s.server_started then rest else returned true log

unfoldable pub server_listen : (polls : ℕ) → ServerState → ServerLog → Listened
unfolding listen
server_listen polls s log = if not s.server_started then returned false log else listen polls s log

-- the state and the log after it
unfoldable pub server_stop : ServerState → ServerLog → ServerState × ServerLog
server_stop s log = if not s.server_started then (s, log) else (
  record { server = none; ip_address = none; port = 0; work_dir = none; server_started = false },
  ServerCall.close_server s.server ∷ log,
)

module _ (new_server : ServerLog → Bytes → Option ℕ) (directory : Directory) where
  with_work_dir : Option Bytes → ServerState → ServerLog → Started
  unfolding serve
  with_work_dir none s log = err_free_ip_address s log []
  with_work_dir (some []) s log = err_free_ip_address s log []
  with_work_dir (some (c ∷ work_dir)) s log =
      let port_str = take 15 (decimal_int s.port) in
      serve (new_server log port_str) (record s { work_dir = some (c ∷ work_dir) })
        (ServerCall.new_server port_str ∷ log) (cleanup_temp_files directory (c ∷ work_dir))

  with_ip_address : Option Bytes → ℕ → Option Bytes → ServerState → ServerLog → Started
  unfolding with_work_dir
  with_ip_address none port work_dir s log = record {
    status = false;
    state = s;
    log = log;
    unlinked = [];
  }
  with_ip_address (some []) port work_dir s log = record {
    status = false;
    state = s;
    log = log;
    unlinked = [];
  }
  with_ip_address (some (c ∷ ip_address)) port work_dir s log =
      with_work_dir work_dir (record s { ip_address = some (c ∷ ip_address); port = port }) log

  unfoldable pub server_start :
      (ip_address : Option Bytes) (port : ℕ) (work_dir : Option Bytes)
      → ServerState
      → ServerLog
      → Started
  unfolding with_ip_address
  server_start ip_address port work_dir s log =
      if s.server_started
      then record { status = true; state = s; log = log; unlinked = [] }
      else with_ip_address ip_address port work_dir s log
