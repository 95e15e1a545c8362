-- ===== src/Client/Tests.antt =====
-- Requests to a server that has a file of six bytes.
use ps4rpi.Prelude.{◌+◌, ◌≡◌, refl, none, some, [], ◌∷◌, drop, length-take, Bytes, codes, arith}
use ps4rpi.Samples.{sample_errors, sample_server, http_up}
use ps4rpi.Download.{is_good_status, total_size_of, transfer, download_file_cb}
use ps4rpi.Text.Decimal.{decimal}
use ps4rpi.Tls.{verify_on, verify_off, TlsCall}
use ps4rpi.Tls.Options.{resolve_verify, apply_ssl_options, ssl_server_checks, client_verify}
use ps4rpi.Client.{do_request, method_get}
use ps4rpi.Client.Transfer.{Downloaded, file_cb, args_of, headers_of, range_of, http_get_file_size}
use ps4rpi.Client.Closed.{Closes, do_request-Closes}
use ps4rpi.Client.Transfer.Kept.{IsSound, Reports, http_get_file_size-Reports}

abbrev url : Bytes
url = codes "http://pc/a.pkg"

-- every call of a request that gets its answer, the latest first
all_calls :
    (http_get_file_size sample_errors sample_server (some url) verify_off http_up []).log
    ≡ TlsCall.delete_template 11
      ∷ TlsCall.delete_connection 12
      ∷ TlsCall.delete_request 13
      ∷ TlsCall.get_content_length 13
      ∷ TlsCall.get_status_code 13
      ∷ TlsCall.send_request 13 none
      ∷ TlsCall.create_request 12 0 url 0
      ∷ TlsCall.create_connection 11 url
      ∷ TlsCall.disable_option 11 (ssl_server_checks + client_verify)
      ∷ TlsCall.create_template 2
      ∷ []
unfolding http_get_file_size do_request resolve_verify apply_ssl_options is_good_status
    download_file_cb total_size_of
all_calls = refl

range_header : range_of 4096 512 ≡ codes "bytes=4096-4607"
unfolding range_of decimal
range_header = refl

server-IsSound : IsSound sample_errors sample_server
server-IsSound = record {
  are_errors = record {
    invalid_id_error = omega arith;
    invalid_value_error = omega arith;
    no_content_length_error = omega arith;
    out_of_memory_error = omega arith;
  };
  bounded = λ log q offset room. omega (arith, length-take room (drop offset (codes "abcdef")));
  word = λ log q. omega arith;
}

do_request-Closes_example :
    Closes sample_server sample_errors.invalid_value (file_cb sample_errors sample_server) [] (
      do_request sample_server sample_errors.invalid_value
        (file_cb sample_errors sample_server)
        (some url)
        method_get
        none
        (headers_of sample_errors sample_server 4 2)
        (args_of sample_errors sample_server 4 2)
        verify_on
        http_up
        [])
do_request-Closes_example =
    do_request-Closes sample_server sample_errors.invalid_value
      (file_cb sample_errors sample_server) [] (some url) method_get none
      (headers_of sample_errors sample_server 4 2) (args_of sample_errors sample_server 4 2)
      verify_on http_up [] (record { are = refl })

abbrev four_bytes : Downloaded
four_bytes = record { content = some (codes "abcd"); data_size = 4; total_size = 6 }

reports_six :
    (http_get_file_size sample_errors sample_server (some url) verify_on http_up []).value ≡ some 6
unfolding http_get_file_size do_request resolve_verify apply_ssl_options is_good_status
    download_file_cb total_size_of transfer
reports_six = refl

http_get_file_size-Reports_example : Reports sample_errors sample_server url 6
http_get_file_size-Reports_example =
    http_get_file_size-Reports sample_errors sample_server url verify_on http_up [] server-IsSound
      reports_six
