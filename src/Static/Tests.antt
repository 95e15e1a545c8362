-- ===== src/Static/Tests.antt =====
-- Files sent and refused.
use ps4rpi.Prelude.{◌≡◌, refl, true, codes, strstr, begins_with}
use ps4rpi.Samples.{sample_escape}
use ps4rpi.Text.{starts_with}
use ps4rpi.Static.{Stat, Files, file_reply, handle_static}
use ps4rpi.Static.Confined.{Serves, handle_static-Serves}

-- every path is a file, and every file is sent
abbrev full : Files
full = record {
  stat = λ path. Stat.regular;
  send_file = λ path. 0;
  error_str = λ code. codes "unknown";
}

sends :
    handle_static sample_escape true full (codes "/data") (codes "/static/tmp_1.json")
    ≡ record { returned = true; sent = file_reply (codes "/data/tmp_1.json") }
unfolding handle_static starts_with strstr begins_with
sends = refl

handle_static-Serves_example :
    Serves sample_escape true full
      (codes "/data")
      (codes "/static/../secret")
      (handle_static sample_escape true full (codes "/data") (codes "/static/../secret"))
handle_static-Serves_example =
    handle_static-Serves sample_escape true full (codes "/data") (codes "/static/../secret")
