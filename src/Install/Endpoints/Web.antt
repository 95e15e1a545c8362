-- ===== src/Install/Endpoints/Web.antt =====
-- What an install is given: URLs of the web, and the TLS policy of the request.
use ps4rpi.Prelude.{
  suc, ◌*◌, ◌≡◌, ◌≢◌, ◌⊎◌, ◌∙◌, refl, ap, Bool, true, false, not, Bool-cases, inl, inr, Option,
  Option-cases, none, some, List, [], ◌∷◌, length, All, Bytes, codes, arith,
}
use ps4rpi.Console.{Log}
use ps4rpi.Text.{url_encode}
use ps4rpi.Tls.{SslVerify, HttpState, on_or_off}
use ps4rpi.Response.{Reply}
use ps4rpi.Response.Shape.{IsResponse, kick_errorf-IsResponse}
use ps4rpi.Request.{Json, JsonType, same_type}
use ps4rpi.Client.Transfer.{http_unescape_uri}
use ps4rpi.Package.{World, Outcome, ok, thrown}
use ps4rpi.Package.Pieces.{is_web_url, holds_web_url, pkg_extract_piece_urls_from_ref_pkg_json}
use ps4rpi.Package.Pieces.Encoded.{
  IsWebUrl, AreOf-web, web-encode_unescaped, pkg_extract_piece_urls-AreWebUrls,
}
use ps4rpi.Install.{Site}
use ps4rpi.Install.Register.{Installed, server_error, install_pieces}
use ps4rpi.Install.Endpoints.{
  then_list, or_else, url_error, string_error, encode_url, install_urls, element_error, first_error,
  encode_urls, urls_or, extracted,
}

url_error-web : (name : Bytes) (o : Option Bytes) → url_error name o ≡ none → holds_web_url o ≡ true
unfolding url_error
url_error-web name none h = absurd cc
url_error-web name (some url) h = elim (Bool-cases (is_web_url url)) [
  | inl web ↦ web
  | inr other ↦ absurd (cc (rw other at h))
]

or_else-none : (a b : Option Bytes) → or_else a b ≡ none → (a ≡ none) × (b ≡ none)
or_else-none none b h = (refl, h)
or_else-none (some message) b h = absurd cc

module _ (site : Site) where
  string_error-web :
      (name : Bytes) (s : HttpState) (uri : Bytes)
      → string_error site name s uri ≡ none
      → holds_web_url (http_unescape_uri site.host.errors site.host.lib s uri) ≡ true
  unfolding string_error
  string_error-web name s [] h = absurd cc
  string_error-web name s (c ∷ uri) h =
      url_error-web name (http_unescape_uri site.host.errors site.host.lib s (c ∷ uri)) h

  encode_url-web :
      (o : Option Bytes) {url : Bytes}
      → holds_web_url o ≡ true
      → encode_url site o ≡ ok url
      → IsWebUrl site.host.lib url
  unfolding encode_url
  encode_url-web none h e = absurd cc
  encode_url-web (some plain) h e = elim (Option-cases (url_encode site.host.lib.malloc plain)) [
    | inl failed ↦ absurd (cc (rw failed at e))
    | inr (url, encoded) ↦
        let same = rw encoded at e in
        web-encode_unescaped site.host.lib (some plain) h (encoded ∙ cc)
  ]

  -- An install was asked for with URLs of the web, or an error was answered in its stead.
  pub data Asks (IsWanted : Bool → Type 0) (w : World) (log : Log) (r : Installed) : Type 0 where
    turned_away :
        r.returned ≡ false
        → IsResponse 400 r.sent ⊎ IsResponse 500 r.sent
        → r.world.disk ≡ w.disk
        → r.log ≡ log
        → Asks IsWanted w log r
    asked :
        (verify : Bool) (url : Bytes) (urls : List Bytes) (v : World)
        → IsWanted verify
        → v.disk ≡ w.disk
        → All (IsWebUrl site.host.lib) (url ∷ urls)
        → r ≡ install_pieces site url urls (on_or_off verify) v log
        → Asks IsWanted w log r

  -- What the URLs are to be, if there are any.
  abbrev pub AreFit : Outcome (List Bytes) → Type 0
  AreFit (thrown message) = Unit {0}
  AreFit (ok urls) = (urls ≢ []) × All (IsWebUrl site.host.lib) urls

  -- As many URLs as there are elements.
  abbrev AreOf : {Node : Type 0} → List Node → Outcome (List Bytes) → Type 0
  AreOf fields (thrown message) = Unit {0}
  AreOf fields (ok urls) = All (IsWebUrl site.host.lib) urls × (length urls ≡ length fields)

  then_list-AreOf :
      {Node : Type 0} (field : Node) (fields : List Node) (first : Outcome Bytes)
      (rest : Outcome (List Bytes))
      → ((url : Bytes) → first ≡ ok url → IsWebUrl site.host.lib url)
      → AreOf fields rest
      → AreOf (field ∷ fields) (then_list first rest)
  then_list-AreOf field fields (thrown message) rest web fit = tt
  then_list-AreOf field fields (ok url) (thrown message) web fit = tt
  then_list-AreOf field fields (ok url) (ok urls) web (all, count) =
      ((web url refl, all), ap suc count)

  AreOf-AreFit :
      {Node : Type 0} (field : Node) (fields : List Node) (o : Outcome (List Bytes))
      → AreOf (field ∷ fields) o
      → AreFit o
  AreOf-AreFit field fields (thrown message) fit = tt
  AreOf-AreFit field fields (ok urls) (all, count) =
      ((λ empty. absurd (omega (arith, ap length empty, count))), all)

  module _ (IsWanted : Bool → Type 0) (w v : World) (log : Log) (same : v.disk ≡ w.disk) where
    pub error-Asks :
        (message : Bytes)
        → Asks IsWanted w log record {
          returned = false;
          sent = server_error site v.state message;
          world = v;
          log = log;
        }
    error-Asks message =
        turned_away refl
          (inr (
            kick_errorf-IsResponse site.np_escape v.state.http_initialized 500
              (codes "Internal server error") message))
          same refl

    pub reply-Asks :
        (reply : Reply)
        → IsResponse 400 reply
        → Asks IsWanted w log record { returned = false; sent = reply; world = v; log = log }
    reply-Asks reply shape = turned_away refl (inl shape) same refl

    pub install_urls-Asks :
        (verify : Bool)
        → IsWanted verify
        → (o : Outcome (List Bytes)) → AreFit o
        → Asks IsWanted w log (install_urls site o (on_or_off verify) v log)
    unfolding install_urls
    install_urls-Asks verify want (thrown message) fit = error-Asks message
    install_urls-Asks verify want (ok []) (some_urls, all) = absurd (some_urls refl)
    install_urls-Asks verify want (ok (url ∷ urls)) (some_urls, all) =
        asked verify url urls v want same all refl

  module _ {Node : Type 0} (json : Json Node) where
    element_error-web :
        (s : HttpState) (field : Node)
        → element_error site json s field ≡ none
        → holds_web_url (http_unescape_uri site.host.errors site.host.lib s (json.get_value field))
          ≡ true
    unfolding element_error
    element_error-web s field h =
        elim (Bool-cases (not (same_type (json.get_type field) JsonType.text))) [
          | inl other ↦ absurd (cc (rw other at h))
          | inr text ↦ string_error-web (codes "packages") s (json.get_value field) (rw text at h)
        ]

    encode_urls-AreOf :
        (s : HttpState) (fields : List Node)
        → first_error site json s fields ≡ none
        → AreOf fields (encode_urls site json s fields)
    unfolding encode_urls first_error
    encode_urls-AreOf s [] h = (tt, refl)
    encode_urls-AreOf s (field ∷ fields) h =
        let (one, rest) =
          or_else-none (element_error site json s field) (first_error site json s fields) h in
        then_list-AreOf field fields
          (encode_url site
            (http_unescape_uri site.host.errors site.host.lib s (json.get_value field)))
          (encode_urls site json s fields)
          (λ url e. encode_url-web _ (element_error-web s field one) e)
          (encode_urls-AreOf s fields rest)

    pub urls_or-AreFit :
        (o : Option Bytes) (s : HttpState) (fields : List Node)
        → first_error site json s fields ≡ o
        → AreFit (urls_or site json o s fields)
    unfolding urls_or
    urls_or-AreFit (some message) s fields h = tt
    urls_or-AreFit none s [] h = tt
    urls_or-AreFit none s (field ∷ fields) h =
        elim (Bool-cases (not (site.host.lib.malloc (length (field ∷ fields) * 8)))) [
          | inl full ↦ rw full tt
          | inr room ↦
              rw room (AreOf-AreFit field fields _ (encode_urls-AreOf s (field ∷ fields) h))
        ]

    pub extracted-AreFit :
        (url : Bytes) (mode : SslVerify) (w : World) (o : Option (List Bytes))
        → (pkg_extract_piece_urls_from_ref_pkg_json json site.host.errors site.host.lib url mode
            w.state w.log).value
          ≡ o
        → AreFit (extracted site json url o)
    unfolding extracted
    extracted-AreFit url mode w none h = tt
    extracted-AreFit url mode w (some urls) h =
        let webs =
          pkg_extract_piece_urls-AreWebUrls json site.host.errors site.host.lib url mode w.state
            w.log h in
        (
          webs.listed.some_urls,
          AreOf-web json site.host.errors site.host.lib webs.state
              (json.get_children webs.listed.field) urls webs.listed.are_of,
        )
