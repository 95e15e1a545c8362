-- ===== src/Server/Tests.antt =====
-- A server started, polled and stopped.
use ps4rpi.Prelude.{ℕ, ◌≡◌, refl, true, false, none, some, [], ◌∷◌, inl, Option, Bytes, codes}
use ps4rpi.Text.Decimal.{decimal_int}
use ps4rpi.Cleanup.{Directory}
use ps4rpi.Server.{ServerCall, ServerLog, ServerState, listening, server_start, server_listen}
use ps4rpi.Server.Lifetime.{IsDown, Starts, server_start-Starts}

abbrev makes : ServerLog → Bytes → Option ℕ
makes log port = some 5

abbrev refuses : ServerLog → Bytes → Option ℕ
refuses log port = none

abbrev empty_dir : Directory
empty_dir = record { now = some 0; opens = true; chunks = []; stat = λ path. none }

abbrev down : ServerState
down = record {
  server = none;
  ip_address = none;
  port = 0;
  work_dir = none;
  server_started = false;
}

abbrev ip : Option Bytes
ip = some (codes "192.168.0.9")

abbrev dir : Option Bytes
dir = some (codes "/data")

asks :
    (server_start makes empty_dir ip 12801 dir down []).log
    ≡ ServerCall.new_server (codes "12801") ∷ []
unfolding server_start decimal_int
asks = refl

down-IsDown : IsDown down
down-IsDown = record { started = refl; no_ip = refl; no_dir = refl; no_server = refl }

server_start-Starts_example :
    Starts makes empty_dir ip 12801 dir down [] (server_start makes empty_dir ip 12801 dir down [])
server_start-Starts_example =
    server_start-Starts makes empty_dir ip 12801 dir down [] (inl down-IsDown)

abbrev up : ServerState
up = record down {
  server = some 5;
  ip_address = ip;
  port = 12801;
  work_dir = dir;
  server_started = true;
}

listens :
    server_listen 2 up []
    ≡ listening (
        ServerCall.usleep 10000
        ∷ ServerCall.poll_server (some 5)
        ∷ ServerCall.usleep 10000
        ∷ ServerCall.poll_server (some 5)
        ∷ [])
unfolding server_listen
listens = refl
