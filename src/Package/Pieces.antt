-- ===== src/Package/Pieces.antt =====
-- RPI/pkg.c, `pkg_extract_piece_urls_from_ref_pkg_json`: the URLs of the pieces in a reference JSON
-- that is fetched. The URLs are looked at in one loop over the elements, and encoded in a second.
pub mod Encoded
use ps4rpi.Prelude.{
  ◌>>=◌, [], ℕ, ◌*◌, Bool, true, false, not, ◌&&◌, ◌||◌, Option, none, some, List, ◌∷◌,
  if◌then◌else◌, ◌==◌, length, Bytes, codes,
}
use ps4rpi.Text.{starts_with, url_encode}
use ps4rpi.Request.{Json, JsonType, same_type}
use ps4rpi.Download.{HttpErrors, uint64_max}
use ps4rpi.Tls.{SslVerify, HttpState, TlsLog}
use ps4rpi.Client.{HttpLibrary}
use ps4rpi.Client.Transfer.{Downloaded, Fetched, http_download_file, http_unescape_uri}
use ps4rpi.Package.{bytes_of}

-- the first loop's test of a URL, unescaped
unfoldable pub is_web_url : Bytes → Bool
is_web_url url = starts_with url (codes "http://") || starts_with url (codes "https://")

abbrev pub holds_web_url : Option Bytes → Bool
holds_web_url none = false
holds_web_url (some url) = is_web_url url

-- the second loop's encoding of a URL: the string escaped anew
abbrev pub encode_unescaped : HttpLibrary → Option Bytes → Option Bytes
encode_unescaped lib none = none
encode_unescaped lib (some url) = url_encode lib.malloc url

abbrev pub json_node_size : ℕ
json_node_size = 32

module _ {Node : Type 0} (json : Json Node) (e : HttpErrors) (lib : HttpLibrary) where
  good_value : HttpState → Option Bytes → Bool
  good_value s none = false
  good_value s (some []) = false
  good_value s (some (c ∷ url)) = holds_web_url (http_unescape_uri e lib s (c ∷ url))

  -- an element in the first loop
  good_piece : HttpState → Node → Bool
  unfolding good_value
  good_piece s piece =
      same_type (json.get_type piece) JsonType.obj
      && good_value s (json.get_property_value piece (codes "url"))

  good_pieces : HttpState → List Node → Bool
  unfolding good_piece
  good_pieces s [] = true
  good_pieces s (piece ∷ pieces) = good_piece s piece && good_pieces s pieces

  encode_value : HttpState → Option Bytes → Option Bytes
  encode_value s none = none
  encode_value s (some url) = encode_unescaped lib (http_unescape_uri e lib s url)

  -- the second loop
  encode_pieces : HttpState → List Node → Option (List Bytes)
  unfolding encode_value
  encode_pieces s [] = some []
  encode_pieces s (piece ∷ pieces) = do
    url ← encode_value s (json.get_property_value piece (codes "url"))
    urls ← encode_pieces s pieces
    some (url ∷ urls)

  urls_of : HttpState → List Node → Option (List Bytes)
  unfolding good_pieces encode_pieces
  urls_of s [] = none
  urls_of s (piece ∷ pieces) =
      if good_pieces s (piece ∷ pieces) && lib.malloc (length (piece ∷ pieces) * 8)
      then encode_pieces s (piece ∷ pieces)
      else none

  pieces_of : HttpState → Option Node → Option (List Bytes)
  unfolding urls_of
  pieces_of s none = none
  pieces_of s (some field) =
      if same_type (json.get_type field) JsonType.array
      then urls_of s (json.get_children field)
      else none

  root_of : HttpState → Option Node → Option (List Bytes)
  unfolding pieces_of
  root_of s none = none
  root_of s (some root) = pieces_of s (json.get_property root (codes "pieces"))

  text_of : HttpState → Option Downloaded → Option (List Bytes)
  unfolding root_of
  text_of s none = none
  text_of s (some d) =
      if d.total_size == 0
      then none
      else if not (lib.malloc (json_node_size * 256))
      then none
      else root_of s (json.create (bytes_of d.content) 256)

  -- the array returned, or none for a null pointer
  unfoldable pub pkg_extract_piece_urls_from_ref_pkg_json :
      Bytes → SslVerify → HttpState → TlsLog → Fetched (List Bytes)
  unfolding text_of
  pkg_extract_piece_urls_from_ref_pkg_json url mode s log =
      let f = http_download_file e lib (some url) uint64_max 0 mode s log in
      record { value = text_of f.state f.value; state = f.state; log = f.log }
