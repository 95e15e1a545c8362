-- ===== src/Install.antt =====
-- RPI/server.c, the install endpoints. This file has what they find around them and the names of the
-- files of a request, and `get_language_id` of RPI/util.c. Collect has `install_pieces` up to the
-- registration of the task, Register the rest of it, Endpoints the handlers.
pub mod Collect
pub mod Register
pub mod Endpoints
pub mod Paths
pub mod Served
mod Tests
use ps4rpi.Prelude.{
  ℕ, ◌^◌, Bool, not, Option, none, some, List, ◌∷◌, ◌++◌, if◌then◌else◌, ◌==◌, take, Bytes, codes,
}
use ps4rpi.Console.{Console}
use ps4rpi.Installer.{Installer}
use ps4rpi.Text.Decimal.{decimal_int, lower_hex}
use ps4rpi.Files.{Source}
use ps4rpi.Disk.{Disk}
use ps4rpi.Sfo.{Entry}
use ps4rpi.Sfo
use ps4rpi.Http.{JsonEscape}
use ps4rpi.Package.{Host}

-- What the endpoint finds around it: the calls of the console, the static variables of the server, how
-- files are read, and the number that names the files of a request. A load of param.sfo that reads
-- outside the file, and a string with no terminator in its buffer, give what cannot be known.
pub record Site : Type 0 where
  pub host : Host
  pub console : Console
  pub installer : Installer
  pub np_escape : JsonEscape
  pub source : Disk → Bytes → Source
  pub sfo_alloc : Bool
  pub sfo_malloc : ℕ → ℕ → Bool
  pub on_fault : Bytes → Option (List Entry)
  pub behind : Bytes → Bytes
  -- the result and the value of `sceSystemServiceParamGetInt`
  pub language_ret : ℕ
  pub language_value : ℕ
  pub work_dir : Bytes
  pub ip_address : Bytes
  pub port : ℕ
  -- (uintmax_t)(s->init_time) ^ (uint32_t)(uintptr_t)s
  pub stream_number : ℕ
  -- `ret`, which is not initialised
  pub before : ℕ

module _ (site : Site) where
  unfoldable pub get_language_id : Option ℕ
  get_language_id = if not (site.language_ret == 0) then none else some site.language_value

  -- the names of the files, in buffers of 32 and of 1024 bytes
  unfoldable pub tmp_name : Bytes
  tmp_name = take 31 (codes "tmp_" ++ lower_hex site.stream_number)

  abbrev path_with : Bytes → Bytes
  path_with suffix = take 1023 (site.work_dir ++ (b'/' ∷ (tmp_name ++ suffix)))

  unfoldable pub ref_pkg_json_path : Bytes
  unfolding tmp_name
  ref_pkg_json_path = path_with (codes ".json")

  unfoldable pub param_sfo_path : Bytes
  unfolding tmp_name
  param_sfo_path = path_with (codes ".sfo")

  unfoldable pub icon0_png_path : Bytes
  unfolding tmp_name
  icon0_png_path = path_with (codes ".png")

  -- in a buffer of 256 bytes
  unfoldable pub content_url : Bytes
  unfolding tmp_name
  content_url = take 255 (
      codes "http://"
      ++ (site.ip_address
          ++ (codes ":"
              ++ (decimal_int site.port ++ (codes "/static/" ++ (tmp_name ++ codes ".json"))))))

  unfoldable pub icon_path : Bytes
  unfolding tmp_name
  icon_path =
      take 1023 (codes "/user" ++ (site.work_dir ++ (codes "/" ++ (tmp_name ++ codes ".png"))))
