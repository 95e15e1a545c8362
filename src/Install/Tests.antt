-- ===== src/Install/Tests.antt =====
-- An install of the package of the samples, by the list of its URLs.
use ps4rpi.Prelude.{
  ◌∷◌, ◌++◌, arith, ◌≡◌, refl, true, false, some, none, [], Option, Bytes, codes, length, drop,
  take,
}
use ps4rpi.Text.Decimal.{decimal_int, lower_hex}
use ps4rpi.Files.{Source}
use ps4rpi.Static.{Files, Stat, handle_static}
use ps4rpi.Response.{Write}
use ps4rpi.Install.Served.{served_path, content_url-Served}
use ps4rpi.Samples.{sample_console, running, sample_escape}
use ps4rpi.Tls.{verify_on}
use ps4rpi.Package.Sample.{host, before, url, piece_json}
use ps4rpi.Install.{Site, ref_pkg_json_path, content_url}
use ps4rpi.Install.Register.{install_pieces}
use ps4rpi.Install.Register.Installs.{Installs, install_pieces-Installs}
use ps4rpi.Install.Endpoints.{handle_api_install}
use ps4rpi.Install.Endpoints.Web.{Asks}
use ps4rpi.Install.Endpoints.Asked.{IsPolicy, handle_api_install-Asks}

abbrev source_of : Option Bytes → Source
source_of none = record {
  opens = false;
  file_size = none;
  read = λ offset room. [];
  malloc = λ n. true;
}
source_of (some text) = record {
  opens = true;
  file_size = some (length text);
  read = λ offset room. take room (drop offset text);
  malloc = λ n. true;
}

abbrev site : Site
site = record {
  host = host;
  console = sample_console;
  installer = running;
  np_escape = sample_escape;
  source = λ disk path. source_of (disk path);
  sfo_alloc = true;
  sfo_malloc = λ offset n. true;
  on_fault = λ path. none;
  behind = λ value. [];
  language_ret = 0;
  language_value = 1;
  work_dir = codes "/data";
  ip_address = codes "192.168.0.9";
  port = 12801;
  stream_number = 0x1F3A;
  before = 0;
}

json_path : ref_pkg_json_path site ≡ codes "/data/tmp_1f3a.json"
unfolding ref_pkg_json_path lower_hex
json_path = refl

json_url : content_url site ≡ codes "http://192.168.0.9:12801/static/tmp_1f3a.json"
unfolding content_url lower_hex decimal_int
json_url = refl

install_pieces-Installs_example :
    Installs site url [] verify_on before [] (install_pieces site url [] verify_on before [])
install_pieces-Installs_example = install_pieces-Installs site url [] verify_on before []

handle_api_install-Asks_example :
    Asks site
      (IsPolicy site piece_json (some (codes "{")) before)
      before
      []
      (handle_api_install site piece_json (some (codes "{")) before [])
handle_api_install-Asks_example =
    handle_api_install-Asks site piece_json (some (codes "{")) before []

-- every path is a file
abbrev all_files : Files
all_files = record { stat = λ path. Stat.regular; send_file = λ path. 0; error_str = λ code. [] }

content_url-Served_example :
    (content_url site
      ≡ codes "http://"
        ++ (site.ip_address ++ (codes ":" ++ (decimal_int site.port ++ served_path site))))
    × (handle_static site.np_escape true all_files site.work_dir (served_path site) ≡ record {
      returned = true;
      sent =
          Write.status 200 (codes "OK")
          ∷ Write.header (codes "Connection") (codes "close")
          ∷ Write.header (codes "Content-Type") (codes "application/json")
          ∷ Write.file (ref_pkg_json_path site)
          ∷ [];
    })
content_url-Served_example =
    content_url-Served site all_files true (omega arith) (omega arith) refl refl
