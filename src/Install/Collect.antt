-- ===== src/Install/Collect.antt =====
-- RPI/server.c, `install_pieces` up to the registration: the package is prepared, and its title and
-- content id are read from its param.sfo. A step gives a value, or has the message of THROW_ERROR.
pub mod Described
use ps4rpi.Prelude.{
  [], ℕ, ◌+◌, ◌*◌, Bool, true, false, not, ◌&&◌, Option, none, some, List, ◌∷◌, ◌++◌, if◌then◌else◌,
  ◌==◌, ltb, take, Bytes, codes,
}
use ps4rpi.ContentId.{content_id_size}
use ps4rpi.Bgft.{Package}
use ps4rpi.Text.{rtrim}
use ps4rpi.Text.Decimal.{two_digits}
use ps4rpi.Sfo.{Entry, cstring, sfo_find_entry}
use ps4rpi.Sfo
use ps4rpi.Sfo.File.{sfo_load_from_file}
use ps4rpi.Tls.{SslVerify}
use ps4rpi.Http.{escape_json_string}
use ps4rpi.Package.{◌>>=◌, ◌>>◌, Outcome, ok, thrown, M, pure, PackageInfo}
use ps4rpi.Package.Setup.{pkg_setup_prerequisites}
use ps4rpi.Install.{Site, ref_pkg_json_path, param_sfo_path, icon0_png_path, content_url, icon_path}

-- what `bgft_download_register_package_task` is given, and the title that the reply has
pub record Registration : Type 0 where
  pub content_id : Bytes
  pub task : Package
  pub escaped_title_name : Bytes

-- SFO_FORMAT_STRING
abbrev pub sfo_format_string : ℕ
sfo_format_string = 0x204

unfoldable pub package_type_of : ℕ → Option Bytes
package_type_of content_type =
    if content_type == 0x1A
    then some (codes "PS4GD")
    else if content_type == 0x1B
    then some (codes "PS4AC")
    else if content_type == 0x1C
    then some (codes "PS4AL")
    else if content_type == 0x1E
    then some (codes "PS4DP")
    else none

abbrev pub fail : {A : Type 0} → Bytes → M A
fail message w = (thrown message, w)

abbrev pub demand : Bool → Bytes → M (Unit {0})
demand true message = pure tt
demand false message = fail message

abbrev pub given : {A : Type 0} → Bytes → Option A → M A
given message none = fail message
given message (some a) = pure a

-- a message that names the package by its first URL
abbrev about_package : Bytes → Bytes → Bytes
about_package before url = before ++ (url ++ codes "'.")

abbrev prerequisites_message : (url : Bytes) → (error : Bytes) → Bytes
prerequisites_message url [] =
    about_package (codes "Unable to set up prerequisites for package '") url
prerequisites_message url (c ∷ error) =
    codes "Unable to set up prerequisites for package '" ++ (url ++ (codes "': " ++ (c ∷ error)))

invalid_format : (key url : Bytes) → Bytes
invalid_format key url =
    codes "Invalid format of '"
    ++ (key ++ about_package (codes "' entry in system file object for package '") url)

module _ (site : Site) where
  prerequisites : (url : Bytes) → Outcome PackageInfo → Outcome PackageInfo
  prerequisites url (ok info) = ok info
  prerequisites url (thrown error) = thrown (prerequisites_message url (rtrim error).0)

  abbrev pub set_up : (url : Bytes) → List Bytes → SslVerify → M PackageInfo
  set_up url urls mode =
      pkg_setup_prerequisites site.host 256 mode (ref_pkg_json_path site) (param_sfo_path site)
        (icon0_png_path site) (url ∷ urls)

  prepare : (url : Bytes) → List Bytes → SslVerify → M PackageInfo
  unfolding prerequisites
  prepare url urls mode w = let r = set_up url urls mode w in (prerequisites url r.0, r.1)

  -- what is loaded of the file, if it was
  loaded : Sfo.Outcome (List Entry) → Option (List Entry)
  loaded Sfo.fault = site.on_fault (param_sfo_path site)
  loaded Sfo.failed = none
  loaded (Sfo.done entries) = some entries

  load_sfo : (url : Bytes) → M (List Entry)
  unfolding loaded
  load_sfo url w =
      let f = site.source w.disk (param_sfo_path site) in
      given (about_package (codes "Unable to load system file object for package '") url)
        (loaded (sfo_load_from_file site.sfo_malloc f)) w

  -- the string that a value begins with
  abbrev terminated : Bytes → Option Bytes → Bytes
  terminated value none = value ++ site.behind value
  terminated value (some s) = s

  string_of : Entry → Bytes
  string_of entry = terminated entry.value (cstring entry.value)

  -- the entry of the title, with its key
  or_title : List Entry → (url key : Bytes) → Option Entry → M (Bytes × Entry)
  or_title entries url key (some entry) = pure (key, entry)
  or_title entries url key none = do
    entry ←
        given (about_package (codes "Unable to get title for package '") url)
          (sfo_find_entry entries (codes "TITLE"))
    pure (codes "TITLE", entry)

  find_title : List Entry → (url : Bytes) → (lang_id : ℕ) → M (Bytes × Entry)
  unfolding or_title
  find_title entries url lang_id =
      let key = take 15 (codes "TITLE_" ++ two_digits lang_id) in
      or_title entries url key (sfo_find_entry entries key)

  escape_title : (title_name : Bytes) → M Bytes
  escape_title title_name w =
      given (codes "Unable to escape title name.")
        (escape_json_string site.np_escape w.state.http_initialized (256 * 2 + 1) title_name) w

  abbrev icon_path_of : Bool → Option Bytes
  icon_path_of true = some (icon_path site)
  icon_path_of false = none

  -- what the task is registered with
  describe :
      List Entry
      → (url : Bytes) → (lang_id : ℕ) → PackageInfo
      → (package_type : Bytes) → M Registration
  unfolding find_title string_of escape_title invalid_format
  describe entries url lang_id info package_type = do
    title ← find_title entries url lang_id
    demand (title.1.format == sfo_format_string && not (ltb title.1.size 1))
        (invalid_format title.0 url)
    let title_name = take 255 (string_of title.1)
    escaped ← escape_title title_name
    entry ←
        given (about_package (codes "Unable to get content id for package '") url)
          (sfo_find_entry entries (codes "CONTENT_ID"))
    demand (entry.format == sfo_format_string && entry.size == content_id_size + 1)
        (invalid_format (codes "CONTENT_ID") url)
    pure (record {
      content_id = take content_id_size (string_of entry);
      task = record {
        content_url = content_url site;
        content_name = title_name;
        icon_path = icon_path_of info.has_icon;
        package_type = package_type;
        package_sub_type = none;
        package_size = info.package_size;
        is_patch = info.is_patch;
      };
      escaped_title_name = escaped;
    })

  -- after the preparation
  read_sfo : (url : Bytes) → (lang_id : ℕ) → PackageInfo → M Registration
  unfolding load_sfo describe
  read_sfo url lang_id info = do
    package_type ←
        given (about_package (codes "Unsupported content type for package '") url)
          (package_type_of info.content_type)
    demand site.sfo_alloc
        (about_package (codes "Unable to allocate system file object for package '") url)
    entries ← load_sfo url
    describe entries url lang_id info package_type

  unfoldable pub collect : (url : Bytes) → List Bytes → (lang_id : ℕ) → SslVerify → M Registration
  unfolding prepare read_sfo
  collect url urls lang_id mode = do info ← prepare url urls mode; read_sfo url lang_id info
