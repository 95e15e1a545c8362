-- ===== src/Package/Sample.antt =====
-- A package of one piece on a server, and JSON: a request for it and a reference JSON that lists it.
use ps4rpi.Prelude.{
  ℕ, true, false, Option, none, some, List, [], ◌∷◌, ◌++◌, if◌then◌else◌, take, drop, length, Bytes,
  codes, str_eq,
}
use ps4rpi.Files.{Sink}
use ps4rpi.Sfo.{zeros}
use ps4rpi.Download.{ReadData}
use ps4rpi.Tls.{TlsCall, TlsLog}
use ps4rpi.Request.{Json, JsonType}
use ps4rpi.Samples.{sample_id, sample_errors, sample_server, http_up}
use ps4rpi.Client.{HttpLibrary}
use ps4rpi.Package.{Host, World, PackageInfo}

-- The range asked for by the last request of the log
abbrev pub asked : TlsLog → Option Bytes
asked [] = none
asked (TlsCall.create_request c m url n ∷ log) = none
asked (TlsCall.add_request_header q name value ∷ log) =
    if str_eq name (codes "Range") then some value else asked log
asked (_ ∷ log) = asked log

abbrev pub header : Bytes
header =
    (0x7F ∷ codes "CNT")
    ++ (zeros 12
        ++ ((0 ∷ 0 ∷ 0 ∷ 1 ∷ zeros 4)
            ++ ((0 ∷ 0 ∷ 0x20 ∷ 0 ∷ zeros 88)
                ++ ((0 ∷ 0 ∷ 0 ∷ 0x1A ∷ zeros 952)
                    ++ ((zeros 6 ++ (0x20 ∷ 0x98 ∷ [])) ++ zeros 7112)))))

abbrev pub table : Bytes
table = (0 ∷ 0 ∷ 0x10 ∷ 0 ∷ zeros 12) ++ ((0 ∷ 0 ∷ 0x20 ∷ 0x20 ∷ 0 ∷ 0 ∷ 0 ∷ 120 ∷ []) ++ zeros 8)

-- a little-endian number of 32 bits, and an entry of a string
abbrev word : ℕ → Bytes
word n = n ∷ 0 ∷ 0 ∷ 0 ∷ []

abbrev text_entry : (key size area value : ℕ) → Bytes
text_entry key size area value = (key ∷ 0 ∷ 4 ∷ 2 ∷ []) ++ (word size ++ (word area ++ word value))

-- keys at 52, values at 72: the content id, and the title
abbrev pub sfo_file : Bytes
sfo_file =
    (0 ∷ codes "PSF")
    ++ (word 1
        ++ (word 52
            ++ (word 72
                ++ (word 2
                    ++ (text_entry 0 37 40 0
                        ++ (text_entry 11 5 8 40
                            ++ ((codes "CONTENT_ID" ++ (0 ∷ []))
                                ++ ((codes "TITLE" ++ zeros 4)
                                    ++ ((sample_id ++ zeros 4) ++ (codes "Game" ++ zeros 4))))))))))

abbrev pub body : Option Bytes → Bytes
body none = header
body (some range) = if str_eq range (codes "bytes=8192-8223") then table else sfo_file

abbrev pub total : Option Bytes → ℕ
total none = 8344
total (some range) = length (body (some range))

abbrev pub code : Option Bytes → ℕ
code none = 200
code (some range) = 206

abbrev pub package_server : HttpLibrary
package_server = record sample_server {
  status_code = λ log q. code (asked log);
  content_length = λ log q. some (total (asked log));
  read = λ log q offset room. ReadData.got (take room (drop offset (body (asked log))));
}

abbrev pub disk_sink : Sink
disk_sink = record { opens = true; write = λ offset given. length given }

abbrev pub host : Host
host = record {
  errors = sample_errors;
  lib = package_server;
  hex = record { einval = 22; enospc = 28 };
  sink = λ path. disk_sink;
  fopens = λ path. true;
  errno = 0;
  printed = λ text. text;
}

abbrev pub before : World
before = record { state = http_up; log = []; disk = λ path. some (codes "old") }

abbrev pub game : PackageInfo
game = record { content_type = 0x1A; package_size = 8344; is_patch = false; has_icon = false }

abbrev pub url : Bytes
url = codes "http://pc/a.pkg"

-- the nodes of { "type": "direct", "packages": [url] } and of { "pieces": [{ "url": url }] }
pub data PieceNode : Type 0 where
  request kind packages element reference pieces piece : PieceNode

abbrev node_property : PieceNode → Bytes → Option PieceNode
node_property PieceNode.request name =
    if str_eq name (codes "type")
    then some PieceNode.kind
    else if str_eq name (codes "packages")
    then some PieceNode.packages
    else none
node_property PieceNode.reference name =
    if str_eq name (codes "pieces") then some PieceNode.pieces else none
node_property _ name = none

abbrev node_type : PieceNode → JsonType
node_type PieceNode.request = JsonType.obj
node_type PieceNode.reference = JsonType.obj
node_type PieceNode.piece = JsonType.obj
node_type PieceNode.packages = JsonType.array
node_type PieceNode.pieces = JsonType.array
node_type _ = JsonType.text

abbrev node_value : PieceNode → Bytes
node_value PieceNode.kind = codes "Direct"
node_value _ = url

abbrev node_children : PieceNode → List PieceNode
node_children PieceNode.packages = PieceNode.element ∷ []
node_children PieceNode.pieces = PieceNode.piece ∷ []
node_children _ = []

-- the reference JSON has the text that the server of the samples sends
abbrev pub piece_json : Json PieceNode
piece_json = record {
  create =
      λ s n. some (if str_eq s (codes "abcdef") then PieceNode.reference else PieceNode.request);
  get_property = node_property;
  get_type = node_type;
  get_value = node_value;
  get_integer = λ node. 0;
  get_boolean = λ node. true;
  get_children = node_children;
  get_property_value = λ node name. some url;
}
