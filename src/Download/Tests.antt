-- ===== src/Download/Tests.antt =====
-- A part of a file that is asked for and sent, and one that the server ignores.
use ps4rpi.Prelude.{◌≡◌, refl, true, false, none, some, take, drop, length-take, codes, arith}
use ps4rpi.Download.{
  HttpErrors, DownloadArgs, ReadData, Response, is_good_status, total_size_of, transfer,
  download_file_cb,
}
use ps4rpi.Download.Received.{AreErrors, IsBounded, IsReceived, download_file_cb-IsReceived}

abbrev errors : HttpErrors
errors = record {
  invalid_id = 0x80431100;
  invalid_value = 0x804311FE;
  no_content_length = 0x80431071;
  out_of_memory = 0x80431022;
}

errors-AreErrors : AreErrors errors
errors-AreErrors = record {
  invalid_id_error = omega arith;
  invalid_value_error = omega arith;
  no_content_length_error = omega arith;
  out_of_memory_error = omega arith;
}

abbrev part : Response
part = record {
  req_id = 1;
  status_code = 206;
  content_length = some 6;
  read = λ offset room. ReadData.got (take room (drop offset (codes "abcdef")));
  malloc = λ n. true;
}

abbrev four_bytes : DownloadArgs
four_bytes = record {
  data_stored = none;
  data_size = 4;
  actual_size = 0;
  content_length = 0;
  has_chunk = true;
  chunk_size = 3;
  want_partial = true;
  range_ignored = false;
  status_code = 0;
}

stores_four : (download_file_cb errors part four_bytes).args.data_stored ≡ some (codes "abcd")
unfolding download_file_cb is_good_status total_size_of transfer
stores_four = refl

ignores_range :
    (download_file_cb errors (record part { status_code = 200 }) four_bytes).args.range_ignored
    ≡ true
unfolding download_file_cb is_good_status total_size_of transfer
ignores_range = refl

returns_zero : (download_file_cb errors part four_bytes).ret ≡ 0
unfolding download_file_cb is_good_status total_size_of transfer
returns_zero = refl

part-IsBounded : IsBounded errors part
part-IsBounded offset room = omega (arith, length-take room (drop offset (codes "abcdef")))

download_file_cb-IsReceived_example :
    IsReceived errors part four_bytes (download_file_cb errors part four_bytes)
download_file_cb-IsReceived_example =
    download_file_cb-IsReceived errors part four_bytes errors-AreErrors part-IsBounded (omega arith)
      (omega arith) returns_zero
