-- ===== src/Package/Tests.antt =====
-- A package of one piece on a server: a header, a table of one entry, and the param.sfo that it names.
use ps4rpi.Prelude.{◌≡◌, refl, some, [], ◌∷◌, length, codes, str_eq}
use ps4rpi.Text.Decimal.{decimal}
use ps4rpi.Sfo.{zeros}
use ps4rpi.Download.{is_good_status, download_file_cb, total_size_of, transfer}
use ps4rpi.Tls.{verify_on}
use ps4rpi.Tls.Options.{resolve_verify, apply_ssl_options}
use ps4rpi.Samples.{sample_errors, sample_server, http_up}
use ps4rpi.Client.{do_request}
use ps4rpi.Client.Transfer.{range_of, http_download_file}
use ps4rpi.Package.{Host}
use ps4rpi.Package.Setup.{pkg_setup_prerequisites}
use ps4rpi.Package.Setup.Unharmed.{IsUnharmed, pkg_setup_prerequisites-IsUnharmed}
use ps4rpi.Package.Sample.{header, host, before, url, package_server, piece_json}
use ps4rpi.Package.Pieces.{is_web_url, pkg_extract_piece_urls_from_ref_pkg_json}
use ps4rpi.Package.Pieces.Encoded.{AreWebUrls, pkg_extract_piece_urls-AreWebUrls}
use ps4rpi.Client.Transfer.{http_unescape_uri}
use ps4rpi.Text.{starts_with, url_encode}

header_size : length header ≡ 0x2000
unfolding zeros
header_size = refl

-- a server without the package
abbrev empty_host : Host
empty_host = record host { lib = record package_server { status_code = λ log q. 404 } }

pkg_setup_prerequisites-IsUnharmed_example :
    IsUnharmed empty_host 256 verify_on
      (codes "a.json")
      (codes "a.sfo")
      (codes "a.png")
      before.disk
      (pkg_setup_prerequisites empty_host 256 verify_on
        (codes "a.json")
        (codes "a.sfo")
        (codes "a.png")
        (url ∷ [])
        before)
pkg_setup_prerequisites-IsUnharmed_example =
    pkg_setup_prerequisites-IsUnharmed empty_host 256 verify_on (codes "a.json") (codes "a.sfo")
      (codes "a.png") url [] before (λ e. cc e) (λ e. cc e) (λ e. cc e)

extracts :
    (pkg_extract_piece_urls_from_ref_pkg_json piece_json sample_errors sample_server
      (codes "http://pc/a.json")
      verify_on
      http_up
      []).value
    ≡ some (url ∷ [])
unfolding pkg_extract_piece_urls_from_ref_pkg_json is_web_url starts_with http_download_file
    do_request resolve_verify apply_ssl_options is_good_status download_file_cb total_size_of
    transfer http_unescape_uri url_encode decimal range_of str_eq
extracts = refl

pkg_extract_piece_urls-AreWebUrls_example :
    AreWebUrls piece_json sample_errors sample_server
      (codes "http://pc/a.json")
      verify_on
      http_up
      []
      (url ∷ [])
pkg_extract_piece_urls-AreWebUrls_example =
    pkg_extract_piece_urls-AreWebUrls piece_json sample_errors sample_server
      (codes "http://pc/a.json") verify_on http_up [] extracts
