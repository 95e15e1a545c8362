-- ===== src/Program/Tests.antt =====
-- The program started on a console where every call succeeds.
use ps4rpi.Prelude.{◌≡◌, Bool, refl, true, false, none, some, [], codes}
use ps4rpi.Console.{minus_one}
use ps4rpi.Tls.{verify_on, default_ca_bundle_path}
use ps4rpi.Samples.{sample_console, sample_json}
use ps4rpi.Installer.{app_inst_util_init}
use ps4rpi.Bgft.{bgft_init}
use ps4rpi.Modules.{load_modules}
use ps4rpi.Net.{net_init, net_get_ipv4, net_get_mem_id}
use ps4rpi.Tls.Config.{http_init, http_load_config}
use ps4rpi.Tls.{http_load_ca_bundle}
use ps4rpi.Files.{read_text_file}
use ps4rpi.Server.{server_start, server_listen}
use ps4rpi.Program.{Machine, App, Run, exited, serving, main}
use ps4rpi.Program.Labels.{IsDown, IsSettledRun}
use ps4rpi.Program.Settled.{main-IsSettledRun}
use ps4rpi.Program.Flawless.{IsFlawless, IsServing, main-serves}

abbrev machine : Machine
machine = record {
  console = sample_console;
  tls = λ log call. 0;
  files = λ path. record {
    opens = false;
    file_size = none;
    read = λ offset room. [];
    malloc = λ n. true;
  };
  net = record { ret = λ log call. 0; ip_address = λ log. codes "192.168.0.9" };
  new_server = λ log port. some 5;
  directory = record { now = some 0; opens = true; chunks = []; stat = λ path. none };
  libjbc = 1;
  exports = λ name. true;
  user_service_ret = 0;
}

abbrev start : App
start = record {
  jailbroken = false;
  has_set_cred = false;
  modules_loaded = false;
  installer = record { app_inst_util_initialized = false; bgft_initialized = false; bgft_heap = 0 };
  net = record { libnet_mem_id = minus_one; net_initialized = false };
  http = record {
    http_initialized = false;
    libssl_ctx_id = minus_one;
    libhttp_ctx_id = minus_one;
    ssl_verify_mode = verify_on;
    ca_bundle_path = default_ca_bundle_path;
    ca_bundle_data = none;
    ca_bundle_loaded = false;
    last_error = [];
  };
  server = record {
    server = none;
    ip_address = none;
    port = 0;
    work_dir = none;
    server_started = false;
  };
  log = [];
  net_log = [];
  tls_log = [];
  server_log = [];
  calls = [];
}

start-IsDown : IsDown machine start
start-IsDown = record {
  own_cred = refl;
  holds_own = refl;
  user_service = refl;
  modules = refl;
  app_inst_util = refl;
  bgft = refl;
  net = refl;
  http = refl;
  server = record { started = refl; no_ip = refl; no_dir = refl; no_server = refl };
}

main-IsSettledRun_example : IsSettledRun machine (main sample_json machine 3 start)
main-IsSettledRun_example = main-IsSettledRun sample_json machine 3 start start-IsDown

machine-IsFlawless : IsFlawless machine
machine-IsFlawless = record {
  loads = λ log s. refl;
  user = refl;
  app = λ log. refl;
  memory = λ log. refl;
  bgft = λ log heap. refl;
  netctl = λ log. refl;
  net = λ log. refl;
  pool = λ log size. refl;
  address = λ log. refl;
  some_address = λ log. (b'1', codes "92.168.0.9", refl);
  ssl = λ log. refl;
  http = λ log mem_id ssl. refl;
  server = λ log port. (5, refl);
}

main-serves_example : IsServing (main sample_json machine 3 start)
main-serves_example =
    main-serves sample_json machine machine-IsFlawless 3 start refl start-IsDown.server

abbrev is_serving : Run → Bool
is_serving (exited a) = false
is_serving (serving a) = true

serves : is_serving (main sample_json machine 3 start) ≡ true
unfolding main load_modules app_inst_util_init bgft_init net_init net_get_ipv4 net_get_mem_id
    http_init http_load_config http_load_ca_bundle read_text_file server_start server_listen
serves = refl
