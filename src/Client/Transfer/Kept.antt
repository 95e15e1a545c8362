-- ===== src/Client/Transfer/Kept.antt =====
-- What a download, or a query for a size, that succeeds hands out.
use ps4rpi.Prelude.{
  ℕ, ◌^◌, ◌≤◌, ◌<◌, ◌≡◌, ◌≢◌, ◌⊎◌, sym, ap, ◌∙◌, Bool, true, false, not, ◌&&◌, Option, none, some,
  [], if◌then◌else◌, ltb, length, Bytes, arith,
}
use mathlib.Core.Path.{subst}
use ps4rpi.Download.{
  HttpErrors, DownloadArgs, uint64_max, is_good_status, count_of, or_max, download_file_cb,
}
use ps4rpi.Download.Reads.{Reads}
use ps4rpi.Download.Received.{AreErrors, IsReceived, download_file_cb-IsReceived}
use ps4rpi.Tls.{SslVerify, TlsLog, HttpState}
use ps4rpi.Client.{HttpLibrary, Performed, do_request, method_get}
use ps4rpi.Client.Transfer.{
  Downloaded, response_of, file_cb, size_reported, http_get_file_size, no_args,
}
use ps4rpi.Client.Ends.{IsAnswer, Ends, broken, called, do_request-Ends}

module _ (e : HttpErrors) (lib : HttpLibrary) where
  -- The codes are errors, a read stores no more than was asked, and lengths have 64 bits.
  pub record IsSound : Type 0 where
    pub are_errors : AreErrors e
    pub bounded :
        (log : TlsLog) (req_id offset room : ℕ) → count_of (lib.read log req_id offset room) ≤ room
    pub word : (log : TlsLog) (req_id : ℕ) → or_max (lib.content_length log req_id) < 2 ^ 64

  -- The answer of the library that the callback has kept.
  pub record IsKept (url : Bytes) (args : DownloadArgs) (r : Performed DownloadArgs) : Type 0 where
    pub at : TlsLog
    pub req_id : ℕ
    pub status_code : ℕ
    pub content_length : Option ℕ
    pub answer :
        IsAnswer lib e.invalid_value
          (file_cb e lib)
          method_get
          url
          none
          req_id
          status_code
          content_length
    pub received :
        IsReceived e
          (response_of lib at req_id status_code content_length)
          args
          (download_file_cb e (response_of lib at req_id status_code content_length) args)
    pub same :
        (download_file_cb e (response_of lib at req_id status_code content_length) args).args
        ≡ r.arg

  length_fits :
      IsSound
      → (b : Bool) (log : TlsLog) (q : ℕ)
      → or_max (if b then lib.content_length log q else none) < 2 ^ 64
  length_fits sound true log q = sound.word log q
  length_fits sound false log q = omega arith

  kept :
      (url : Bytes) (args : DownloadArgs) (r : Performed DownloadArgs)
      → IsSound
      → args.data_size < 2 ^ 64
      → Ends lib e.invalid_value (file_cb e lib) method_get url none args r
      → r.ret ≡ 0
      → IsKept url args r
  kept url args r sound small (broken bad u) ok = absurd (bad ok)
  kept url args r sound small (called at q code n answer c u) ok = record {
    at = at;
    req_id = q;
    status_code = code;
    content_length = n;
    answer = answer;
    received =
        download_file_cb-IsReceived e (response_of lib at q code n) args sound.are_errors
          (sound.bounded at q) small
          (subst (λ o. or_max o < 2 ^ 64) (sym answer.length_known)
            (length_fits sound (is_good_status code) answer.at_length q))
          (c ∙ ok);
    same = u;
  }

  -- What a download hands out: the bytes that it says, no more than were asked, as they were read of
  -- the good answer to a request for this URL, and if bytes were asked at an offset, of a partial one.
  pub record IsDownloaded (url : Bytes) (data_size offset : ℕ) (d : Downloaded) : Type 0 where
    pub stored : Bytes
    pub content_stored : d.content ≡ some stored
    pub size_stored : d.data_size ≡ length stored
    pub within : length stored ≤ data_size
    pub at : TlsLog
    pub req_id : ℕ
    pub status_code : ℕ
    pub content_length : Option ℕ
    pub answer :
        IsAnswer lib e.invalid_value
          (file_cb e lib)
          method_get
          url
          none
          req_id
          status_code
          content_length
    pub good : (status_code ≡ 200) ⊎ (status_code ≡ 206)
    pub partial : (ltb 0 offset && ltb 0 data_size ≡ false) ⊎ (status_code ≡ 206)
    pub chunk_size : ℕ
    pub total : ℕ
    pub ends : (total ≡ data_size) ⊎ (content_length ≡ some total)
    pub reads :
        Reads (response_of lib at req_id status_code content_length) chunk_size total 0 stored

  size_out :
      (url : Bytes) (s : HttpState) (log : TlsLog) (r : Performed DownloadArgs) {n : ℕ}
      → (if not s.http_initialized
          then record { value = none; state = s; log = log }
          else size_reported e lib url r).value
        ≡ some n
      → (r.ret ≡ 0) × (r.arg.content_length ≡ n) × (n ≢ uint64_max)
  unfolding size_reported
  size_out url s log r h = (ground arith, ground arith, ground arith)

  known_length : (o : Option ℕ) (n : ℕ) → or_max o ≡ n → n ≢ uint64_max → o ≡ some n
  known_length none n e unknown = absurd (unknown (sym e))
  known_length (some m) n e unknown = ap some e

  -- The size is the Content-Length of the good answer to a request for this URL.
  pub record Reports (url : Bytes) (n : ℕ) : Type 0 where
    pub req_id : ℕ
    pub status_code : ℕ
    pub good : (status_code ≡ 200) ⊎ (status_code ≡ 206)
    pub answer :
        IsAnswer lib e.invalid_value (file_cb e lib) method_get url none req_id status_code (some n)
    pub has_length : lib.content_length answer.at_length req_id ≡ some n

  good_code : {code : ℕ} → (code ≡ 200) ⊎ (code ≡ 206) → is_good_status code ≡ true
  unfolding is_good_status
  good_code h = ground arith

  reported :
      (url : Bytes) (req_id status_code : ℕ) (o : Option ℕ) {n : ℕ}
      → (status_code ≡ 200) ⊎ (status_code ≡ 206)
      → IsAnswer lib e.invalid_value (file_cb e lib) method_get url none req_id status_code o
      → o ≡ some n
      → Reports url n
  reported url req_id status_code o {n} good answer known =
      let same =
        subst (IsAnswer lib e.invalid_value (file_cb e lib) method_get url none req_id status_code)
          known answer in
      record {
        req_id = req_id;
        status_code = status_code;
        good = good;
        answer = same;
        has_length = sym (rw (good_code good) at same.length_known);
      }

  -- The size that `http_get_file_size` stores is the Content-Length of the answer, with status 200 or
  -- 206, to a request for the URL that was sent, and the status and the length are of the same answer.
  pub http_get_file_size-Reports :
      (url : Bytes) (mode : SslVerify) (s : HttpState) (log : TlsLog) {n : ℕ}
      → IsSound
      → (http_get_file_size e lib (some url) mode s log).value ≡ some n
      → Reports url n
  unfolding http_get_file_size
  http_get_file_size-Reports url mode s log sound h =
      let r =
        do_request lib e.invalid_value (file_cb e lib) (some url) method_get none [] no_args mode s
          log in
      let (ok, size, finite) = size_out url s log r h in
      let k =
        kept url no_args r sound (omega arith)
          (do_request-Ends lib e.invalid_value (file_cb e lib) url method_get none [] no_args mode s
            log sound.are_errors.invalid_value_error)
          ok in
      let known =
        known_length k.content_length _
          (sym k.received.reported ∙ (ap (λ a. a.content_length) k.same ∙ size)) finite in
      reported url k.req_id k.status_code k.content_length k.received.good k.answer known
