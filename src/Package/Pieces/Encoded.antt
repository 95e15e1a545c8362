-- ===== src/Package/Pieces/Encoded.antt =====
-- Which URLs come out of a reference JSON.
use mathlib.Core.Path.{subst}
use ps4rpi.Prelude.{
  ◌*◌, ◌≡◌, ◌≢◌, ◌⊎◌, ◌++◌, refl, Bool, true, false, not, ◌==◌, ◌&&◌, Bool-cases, inl, inr, Option,
  none, some, List, [], ◌∷◌, length, All, Bytes, codes, after-some, if◌then◌else◌,
}
use ps4rpi.Text.{starts_with, url_encode}
use ps4rpi.Text.Affix.{starts_with_iff}
use ps4rpi.Package.{bytes_of}
use ps4rpi.Request.{Json, JsonType, same_type}
use ps4rpi.Download.{HttpErrors, uint64_max}
use ps4rpi.Tls.{SslVerify, HttpState, TlsLog}
use ps4rpi.Client.{HttpLibrary}
use ps4rpi.Client.Transfer.{Downloaded, http_unescape_uri, http_download_file}
use ps4rpi.Package.Pieces.{
  is_web_url, holds_web_url, encode_unescaped, good_value, good_piece, good_pieces, encode_value,
  encode_pieces, urls_of, pieces_of, root_of, text_of, json_node_size,
  pkg_extract_piece_urls_from_ref_pkg_json,
}

-- The string is the encoding of a URL of one of the two schemes.
pub record IsWebUrl (lib : HttpLibrary) (url : Bytes) : Type 0 where
  pub plain : Bytes
  pub rest : Bytes
  pub scheme : (plain ≡ codes "http://" ++ rest) ⊎ (plain ≡ codes "https://" ++ rest)
  pub encoded : url_encode lib.malloc plain ≡ some url

is_web_url-scheme :
    (url : Bytes)
    → is_web_url url ≡ true
    → (rest : Bytes) × ((url ≡ codes "http://" ++ rest) ⊎ (url ≡ codes "https://" ++ rest))
unfolding is_web_url
is_web_url-scheme url h = elim (Bool-cases (starts_with url (codes "http://"))) [
  | inl plain ↦
      let (rest, same) = (starts_with_iff url (codes "http://")).0 plain in (rest, inl same)
  | inr other ↦
      let (rest, same) = (starts_with_iff url (codes "https://")).0 (rw other at h) in
      (rest, inr same)
]

-- a value that passed the test of the first loop and was encoded in the second
pub web-encode_unescaped :
    (lib : HttpLibrary) (o : Option Bytes) {url : Bytes}
    → holds_web_url o ≡ true
    → encode_unescaped lib o ≡ some url
    → IsWebUrl lib url
web-encode_unescaped lib none h e = absurd cc
web-encode_unescaped lib (some plain) h e =
    let (rest, scheme) = is_web_url-scheme plain h in
    record { plain = plain; rest = rest; scheme = scheme; encoded = e }

pub both : (a b : Bool) → a && b ≡ true → (a ≡ true) × (b ≡ true)
both true b h = (refl, h)
both false b h = cc

-- what a conditional with nothing in one branch gave
pub then-some :
    {A : Type 0} (b : Bool) (x : Option A) {a : A} → (if b then x else none) ≡ some a → x ≡ some a
then-some true x h = h
then-some false x h = cc

pub else-some :
    {A : Type 0} (b : Bool) (x : Option A) {a : A} → (if b then none else x) ≡ some a → x ≡ some a
else-some true x h = cc
else-some false x h = h

module _ {Node : Type 0} (json : Json Node) (e : HttpErrors) (lib : HttpLibrary) where
  -- The URL is the one that an element of the array has escaped.
  pub record IsUrlOf (s : HttpState) (piece : Node) (url : Bytes) : Type 0 where
    pub is_object : same_type (json.get_type piece) JsonType.obj ≡ true
    pub escaped : Bytes
    pub has_url : json.get_property_value piece (codes "url") ≡ some escaped
    pub web : IsWebUrl lib url
    pub unescaped : http_unescape_uri e lib s escaped ≡ some web.plain

  -- One URL for each element, in order.
  abbrev pub AreOf : HttpState → List Node → List Bytes → Type 0
  AreOf s [] [] = Unit {0}
  AreOf s (piece ∷ pieces) (url ∷ urls) = IsUrlOf s piece url × AreOf s pieces urls
  AreOf s _ _ = ⊥

  -- A list of URLs as they are handed to an install: there are some, each is of the web, and they are
  -- those of the elements of the array `pieces` in the JSON with this root.
  pub record AreListed (s : HttpState) (root : Node) (urls : List Bytes) : Type 0 where
    pub field : Node
    pub has_pieces : json.get_property root (codes "pieces") ≡ some field
    pub is_array : same_type (json.get_type field) JsonType.array ≡ true
    pub some_urls : urls ≢ []
    pub are_of : AreOf s (json.get_children field) urls

  -- So of the JSON that was fetched from a URL.
  pub record AreWebUrls (url : Bytes) (mode : SslVerify) (before : HttpState) (log : TlsLog)
      (urls : List Bytes) : Type 0 where
    pub file : Downloaded
    pub fetched :
        (http_download_file e lib (some url) uint64_max 0 mode before log).value ≡ some file
    pub root : Node
    pub has_root : json.create (bytes_of file.content) 256 ≡ some root
    pub state : HttpState
    pub listed : AreListed state root urls

  pub AreOf-web :
      (s : HttpState) (pieces : List Node) (urls : List Bytes)
      → AreOf s pieces urls
      → All (IsWebUrl lib) urls
  AreOf-web s [] [] h = tt
  AreOf-web s [] (url ∷ urls) h = absurd h
  AreOf-web s (piece ∷ pieces) [] h = absurd h
  AreOf-web s (piece ∷ pieces) (url ∷ urls) (one, rest) = (one.web, AreOf-web s pieces urls rest)

  unescaped_value :
      (s : HttpState) (piece : Node) (escaped : Bytes) (o : Option Bytes) {url : Bytes}
      → same_type (json.get_type piece) JsonType.obj ≡ true
      → json.get_property_value piece (codes "url") ≡ some escaped
      → http_unescape_uri e lib s escaped ≡ o
      → holds_web_url o ≡ true
      → encode_unescaped lib o ≡ some url
      → IsUrlOf s piece url
  unfolding web-encode_unescaped
  unescaped_value s piece escaped none typed has same good en = absurd cc
  unescaped_value s piece escaped (some plain) typed has same good en = record {
    is_object = typed;
    escaped = escaped;
    has_url = has;
    web = web-encode_unescaped lib (some plain) good en;
    unescaped = same;
  }

  value-IsUrlOf :
      (s : HttpState) (piece : Node) (o : Option Bytes) {url : Bytes}
      → same_type (json.get_type piece) JsonType.obj ≡ true
      → json.get_property_value piece (codes "url") ≡ o
      → good_value json e lib s o ≡ true
      → encode_value json e lib s o ≡ some url
      → IsUrlOf s piece url
  unfolding good_value encode_value
  value-IsUrlOf s piece none typed has good en = absurd cc
  value-IsUrlOf s piece (some []) typed has good en = absurd cc
  value-IsUrlOf s piece (some (c ∷ raw)) typed has good en =
      unescaped_value s piece (c ∷ raw) _ typed has refl good en

  pieces-AreOf :
      (s : HttpState) (pieces : List Node) {urls : List Bytes}
      → good_pieces json e lib s pieces ≡ true
      → encode_pieces json e lib s pieces ≡ some urls
      → AreOf s pieces urls
  unfolding good_pieces encode_pieces good_piece
  pieces-AreOf s [] {urls} good en = let same : [] ≡ urls = cc in subst (AreOf s []) same tt
  pieces-AreOf s (piece ∷ pieces) {urls} good en =
      let value = json.get_property_value piece (codes "url") in
      let (first, rest) =
        both (good_piece json e lib s piece) (good_pieces json e lib s pieces) good in
      let (typed, fine) =
        both (same_type (json.get_type piece) JsonType.obj) (good_value json e lib s value) first in
      after-some (encode_value json e lib s value) _ en λ url one en1.
        after-some (encode_pieces json e lib s pieces) _ en1 λ us more en2.
          let same : url ∷ us ≡ urls = cc in
          subst (AreOf s (piece ∷ pieces)) same
            (value-IsUrlOf s piece value typed refl fine one, pieces-AreOf s pieces rest more)

  urls-AreOf :
      (s : HttpState) (pieces : List Node) {urls : List Bytes}
      → urls_of json e lib s pieces ≡ some urls
      → (urls ≢ []) × AreOf s pieces urls
  unfolding urls_of
  urls-AreOf s [] h = absurd cc
  urls-AreOf s (piece ∷ pieces) {urls} h =
      elim (Bool-cases
        (good_pieces json e lib s (piece ∷ pieces) && lib.malloc (length (piece ∷ pieces) * 8))) [
          | inr bad ↦ absurd (cc (rw bad at h))
          | inl fine ↦
              let (good, memory) =
                both (good_pieces json e lib s (piece ∷ pieces))
                  (lib.malloc (length (piece ∷ pieces) * 8)) fine in
              let all = pieces-AreOf s (piece ∷ pieces) good (rw fine at h) in
              ((λ empty. subst (AreOf s (piece ∷ pieces)) empty all), all)
        ]

  pieces_of-AreListed :
      (s : HttpState) (root : Node) (o : Option Node) {urls : List Bytes}
      → json.get_property root (codes "pieces") ≡ o
      → pieces_of json e lib s o ≡ some urls
      → AreListed s root urls
  unfolding pieces_of
  pieces_of-AreListed s root none has h = absurd cc
  pieces_of-AreListed s root (some field) has h =
      elim (Bool-cases (same_type (json.get_type field) JsonType.array)) [
        | inr other ↦ absurd (cc (rw other at h))
        | inl array ↦
            let (some_urls, all) = urls-AreOf s (json.get_children field) (rw array at h) in
            record {
              field = field;
              has_pieces = has;
              is_array = array;
              some_urls = some_urls;
              are_of = all;
            }
      ]

  root-AreListed :
      (s : HttpState) (o : Option Node) {urls : List Bytes}
      → root_of json e lib s o ≡ some urls
      → (root : Node) × (o ≡ some root) × AreListed s root urls
  unfolding root_of
  root-AreListed s none h = absurd cc
  root-AreListed s (some root) h = (root, refl, pieces_of-AreListed s root _ refl h)

  text-AreListed :
      (s : HttpState) (o : Option Downloaded) {urls : List Bytes}
      → text_of json e lib s o ≡ some urls
      → (d : Downloaded) × (o ≡ some d)
        × (root : Node) × (json.create (bytes_of d.content) 256 ≡ some root)
        × AreListed s root urls
  unfolding text_of
  text-AreListed s none h = absurd cc
  text-AreListed s (some d) h =
      let (root, created, listed) = root-AreListed s (json.create (bytes_of d.content) 256) (
        else-some (not (lib.malloc (json_node_size * 256))) _
          (else-some (d.total_size == 0) _ h)) in
      (d, refl, root, created, listed)

  -- Where the URLs of the pieces are read out of a reference JSON, they are those of the array
  -- `pieces` in the JSON that was fetched: for each of its elements, of which there is at least one,
  -- the encoding of a string that begins with http:// or https://, which is what the string `url` of
  -- the element stands for.
  pub pkg_extract_piece_urls-AreWebUrls :
      (url : Bytes) (mode : SslVerify) (s : HttpState) (log : TlsLog) {urls : List Bytes}
      → (pkg_extract_piece_urls_from_ref_pkg_json json e lib url mode s log).value ≡ some urls
      → AreWebUrls url mode s log urls
  unfolding pkg_extract_piece_urls_from_ref_pkg_json
  pkg_extract_piece_urls-AreWebUrls url mode s log h =
      let f = http_download_file e lib (some url) uint64_max 0 mode s log in
      let (d, fetched, root, created, listed) = text-AreListed f.state f.value h in
      record {
        file = d;
        fetched = fetched;
        root = root;
        has_root = created;
        state = f.state;
        listed = listed;
      }
