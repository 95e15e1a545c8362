-- ===== src/Install/Endpoints.antt =====
-- RPI/server.c, `handle_api_install_direct`, `handle_api_install_ref_pkg_url`, `handle_api_install`:
-- the URLs of the pieces are in the request, or in a reference JSON that it names. In each URL that
-- comes out the string is unescaped and encoded anew.
pub mod Web
pub mod Asked
use ps4rpi.Prelude.{
  [], ◌*◌, Bool, false, not, Option, none, some, List, ◌∷◌, ◌++◌, if◌then◌else◌, length, Bytes,
  codes,
}
use ps4rpi.Console.{Log}
use ps4rpi.Text.{url_encode}
use ps4rpi.Tls.{SslVerify, HttpState, is_on, on_or_off}
use ps4rpi.Dispatch.{str_case_eq}
use ps4rpi.Response.{Reply, kick_errorf}
use ps4rpi.Request.{
  Json, JsonType, same_type, Parsed, parsed, answered, request_parse, request_field, request_str,
  request_bool_opt,
}
use ps4rpi.Client.Transfer.{http_unescape_uri}
use ps4rpi.Package.{World, Outcome, ok, thrown}
use ps4rpi.Package.Pieces.{is_web_url, pkg_extract_piece_urls_from_ref_pkg_json}
use ps4rpi.Install.{Site}
use ps4rpi.Install.Register.{Installed, server_error, install_pieces}

-- a message that names a parameter
abbrev about_parameter : Bytes → Bytes → Bytes
about_parameter before name = before ++ (name ++ codes "'.")

abbrev no_memory : Bytes
no_memory = codes "No memory."

abbrev pub then_list : Outcome Bytes → Outcome (List Bytes) → Outcome (List Bytes)
then_list (thrown message) rest = thrown message
then_list (ok url) (thrown message) = thrown message
then_list (ok url) (ok urls) = ok (url ∷ urls)

-- the message of the one, else that of the other
abbrev pub or_else : Option Bytes → Option Bytes → Option Bytes
or_else none rest = rest
or_else (some message) rest = some message

abbrev or_no_memory : Option Bytes → Outcome Bytes
or_no_memory none = thrown no_memory
or_no_memory (some url) = ok url

unescape_message : (name : Bytes) → Bytes
unescape_message name =
    about_parameter (codes "Unable to unescape element value of parameter '") name

-- the tests on an unescaped URL, and the message if it fails them
url_error : (name : Bytes) → Option Bytes → Option Bytes
unfolding unescape_message
url_error name none = some (unescape_message name)
url_error name (some url) =
    if not (is_web_url url)
    then some (about_parameter (codes "Unexpected element value of parameter '") name)
    else none

empty_message : (name : Bytes) → Bytes
empty_message name = about_parameter (codes "Empty element value of parameter '") name

module _ (site : Site) where
  -- a handler that answered without an install
  abbrev turned_away : Reply → World → Log → Installed
  turned_away reply w log = record { returned = false; sent = reply; world = w; log = log }

  -- the tests on the string of a URL
  string_error : (name : Bytes) → HttpState → Bytes → Option Bytes
  unfolding url_error empty_message
  string_error name s [] = some (empty_message name)
  string_error name s (c ∷ uri) =
      url_error name (http_unescape_uri site.host.errors site.host.lib s (c ∷ uri))

  encode_url : Option Bytes → Outcome Bytes
  unfolding unescape_message
  encode_url none = thrown (unescape_message (codes "packages"))
  encode_url (some url) = or_no_memory (url_encode site.host.lib.malloc url)

  -- an install of the URLs; the assertion on their number stops a server that is given none
  pub install_urls : Outcome (List Bytes) → SslVerify → World → Log → Installed
  install_urls (thrown message) mode w log = turned_away (server_error site w.state message) w log
  install_urls (ok []) mode w log = turned_away [] w log
  install_urls (ok (url ∷ urls)) mode w log = install_pieces site url urls mode w log

  module _ {Node : Type 0} (json : Json Node) where
    -- an element in the first loop
    element_error : HttpState → Node → Option Bytes
    unfolding string_error
    element_error s field =
        if not (same_type (json.get_type field) JsonType.text)
        then some
            (about_parameter (codes "Invalid type for element of parameter '") (codes "packages"))
        else string_error (codes "packages") s (json.get_value field)

    pub first_error : HttpState → List Node → Option Bytes
    unfolding element_error
    first_error s [] = none
    first_error s (field ∷ fields) = or_else (element_error s field) (first_error s fields)

    -- the second loop
    encode_urls : HttpState → List Node → Outcome (List Bytes)
    unfolding encode_url
    encode_urls s [] = ok []
    encode_urls s (field ∷ fields) =
        then_list
          (encode_url (http_unescape_uri site.host.errors site.host.lib s (json.get_value field)))
          (encode_urls s fields)

    pub urls_or : Option Bytes → HttpState → List Node → Outcome (List Bytes)
    unfolding encode_urls
    urls_or (some message) s fields = thrown message
    urls_or none s [] = thrown (codes "No packages.")
    urls_or none s (field ∷ fields) =
        if not (site.host.lib.malloc (length (field ∷ fields) * 8))
        then thrown no_memory
        else encode_urls s (field ∷ fields)

    pub direct_urls : HttpState → List Node → Outcome (List Bytes)
    unfolding urls_or first_error
    direct_urls s fields = urls_or (first_error s fields) s fields

    install_packages : Parsed Node → SslVerify → World → Log → Installed
    unfolding direct_urls install_urls
    install_packages (answered reply) mode w log = turned_away reply w log
    install_packages (parsed field) mode w log =
        install_urls (direct_urls w.state (json.get_children field)) mode w log

    unfoldable pub handle_api_install_direct : Node → SslVerify → World → Log → Installed
    unfolding install_packages
    handle_api_install_direct root mode w log =
        install_packages
          (request_field json site.np_escape w.state.http_initialized root (codes "packages")
            JsonType.array)
          mode w log

    pub extracted : (url : Bytes) → Option (List Bytes) → Outcome (List Bytes)
    extracted url none = thrown (codes "Unable to extract pieces URLs for '" ++ (url ++ codes "'."))
    extracted url (some urls) = ok urls

    -- with the URL of the reference JSON
    install_listed : (url : Bytes) → SslVerify → World → Log → Installed
    unfolding extracted install_urls
    install_listed url mode w log =
        let f =
          pkg_extract_piece_urls_from_ref_pkg_json json site.host.errors site.host.lib url mode
            w.state w.log in
        install_urls (extracted url f.value) mode (record w { state = f.state; log = f.log }) log

    unescaped : Option Bytes → Bytes
    unescaped none = []
    unescaped (some url) = url

    listed_or : Option Bytes → (uri : Bytes) → SslVerify → World → Log → Installed
    unfolding install_listed unescaped
    listed_or (some message) uri mode w log = turned_away (server_error site w.state message) w log
    listed_or none uri mode w log =
        install_listed (unescaped (http_unescape_uri site.host.errors site.host.lib w.state uri))
          mode w log

    install_reference : Parsed Bytes → SslVerify → World → Log → Installed
    unfolding string_error listed_or
    install_reference (answered reply) mode w log = turned_away reply w log
    install_reference (parsed uri) mode w log =
        listed_or (string_error (codes "url") w.state uri) uri mode w log

    unfoldable pub handle_api_install_ref_pkg_url : Node → SslVerify → World → Log → Installed
    unfolding install_reference
    handle_api_install_ref_pkg_url root mode w log =
        install_reference
          (request_str json site.np_escape w.state.http_initialized root (codes "url")) mode w log

    by_type : Node → SslVerify → Parsed Bytes → World → Log → Installed
    unfolding handle_api_install_direct handle_api_install_ref_pkg_url
    by_type root mode (answered reply) w log = turned_away reply w log
    by_type root mode (parsed type) w log =
        if str_case_eq type (codes "direct")
        then handle_api_install_direct root mode w log
        else if str_case_eq type (codes "ref_pkg_url")
        then handle_api_install_ref_pkg_url root mode w log
        else turned_away
            (kick_errorf site.np_escape w.state.http_initialized 400 (codes "Bad request")
              (codes "Invalid type '" ++ (type ++ codes "'.")))
            w log

    -- with the policy asked for, or else the one that is set
    by_policy : Node → Parsed Bool → World → Log → Installed
    unfolding by_type
    by_policy root (answered reply) w log = turned_away reply w log
    by_policy root (parsed verify) w log =
        by_type root (on_or_off verify)
          (request_str json site.np_escape w.state.http_initialized root (codes "type")) w log

    by_root : Parsed Node → World → Log → Installed
    unfolding by_policy
    by_root (answered reply) w log = turned_away reply w log
    by_root (parsed root) w log =
        by_policy root
          (request_bool_opt json site.np_escape w.state.http_initialized root (codes "ssl_verify")
            (is_on w.state.ssl_verify_mode))
          w log

    unfoldable pub handle_api_install : Option Bytes → World → Log → Installed
    unfolding by_root
    handle_api_install in_data w log =
        by_root (request_parse json site.np_escape w.state.http_initialized in_data) w log
