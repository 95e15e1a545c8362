-- ===== src/Download.antt =====
-- RPI/http.c, `download_file_cb` and `is_good_status`: what is kept of a response, in chunks.
pub mod Reads
pub mod Received
mod Tests
use ps4rpi.Prelude.{
  ℕ, zero, suc, ◌+◌, ◌-◌, ◌/◌, ◌%◌, ◌^◌, min, Bool, true, false, not, ◌&&◌, ◌||◌, Option, none,
  some, List, [], ◌∷◌, ◌++◌, if◌then◌else◌, ◌==◌, ltb, length, Bytes,
}
use ps4rpi.Console.{is_negative}

-- the codes of the SDK that the callback returns
pub record HttpErrors : Type 0 where
  pub invalid_id : ℕ
  pub invalid_value : ℕ
  pub no_content_length : ℕ
  pub out_of_memory : ℕ

-- `struct download_file_cb_args`; the data are the bytes stored, without the zeros behind them
pub record DownloadArgs : Type 0 where
  pub data_stored : Option Bytes
  pub data_size : ℕ
  pub actual_size : ℕ
  pub content_length : ℕ
  pub has_chunk : Bool
  pub chunk_size : ℕ
  pub want_partial : Bool
  pub range_ignored : Bool
  pub status_code : ℕ

-- `sceHttpReadData`: a negative code, or the bytes stored, which are none at the end
pub data ReadData : Type 0 where
  read_failed : ℕ → ReadData
  got : Bytes → ReadData

pub record Transfer : Type 0 where
  pub ret : ℕ
  pub received : Bytes

-- the response: its id, its status, its length if it has one, what is read at an offset into a chunk of
-- a size; and whether there is memory
pub record Response : Type 0 where
  pub req_id : ℕ
  pub status_code : ℕ
  pub content_length : Option ℕ
  pub read : (offset room : ℕ) → ReadData
  pub malloc : ℕ → Bool

pub record Callback : Type 0 where
  pub ret : ℕ
  pub args : DownloadArgs

-- UINT64_MAX, and (uint64_t)-1
abbrev pub uint64_max : ℕ
uint64_max = 2 ^ 64 - 1

unfoldable pub is_good_status : ℕ → Bool
is_good_status status_code = status_code == 200 || status_code == 206

-- one read, and those after it if it was not the last
transfer_step : ReadData → Transfer → Transfer
transfer_step (read_failed code) rest = record { ret = code; received = [] }
transfer_step (got []) rest = record { ret = 0; received = [] }
transfer_step (got (c ∷ s)) rest = record { ret = rest.ret; received = (c ∷ s) ++ rest.received }

-- the length of what was read
abbrev pub count_of : ReadData → ℕ
count_of (read_failed code) = 0
count_of (got s) = length s

-- the loop around `sceHttpReadData`
unfoldable pub transfer : Response → (chunk_size fuel total_size cur_size : ℕ) → Transfer
unfolding transfer_step
transfer r chunk_size zero total_size cur_size = record { ret = 0; received = [] }
transfer r chunk_size (suc fuel) total_size cur_size =
    let step = r.read cur_size (min (total_size - cur_size) chunk_size) in
    let rest = transfer r chunk_size fuel total_size (cur_size + count_of step) in
    if ltb cur_size total_size then transfer_step step rest else record { ret = 0; received = [] }

abbrev pub or_max : Option ℕ → ℕ
or_max none = uint64_max
or_max (some n) = n

-- `total_size`; none where neither the caller nor the response has a length
unfoldable pub total_size_of : (data_size : ℕ) → Option ℕ → Option ℕ
total_size_of data_size content_length =
    if data_size == uint64_max
    then content_length
    else if ltb (or_max content_length) data_size
    then some (or_max content_length)
    else some data_size

module _ (e : HttpErrors) (r : Response) where
  abbrev returned : ℕ → DownloadArgs → Callback
  returned code args = record { ret = code; args = args }

  -- from `malloc` on, and the fields that are set at `err_partial_xfer`
  receive : (total_size : ℕ) → DownloadArgs → Callback
  unfolding transfer
  receive total_size a =
      if not (r.malloc ((total_size + 1) % 2 ^ 64))
      then returned e.out_of_memory (record a {
        data_stored = none;
        data_size = total_size;
        actual_size = 0;
        content_length = or_max r.content_length;
      })
      else let t = transfer r a.chunk_size total_size total_size 0 in
        returned t.ret (record a {
          data_stored = some t.received;
          data_size = total_size;
          actual_size = length t.received;
          content_length = or_max r.content_length;
        })

  receive_sized : Option ℕ → DownloadArgs → Callback
  unfolding receive
  receive_sized none a = returned e.no_content_length a
  receive_sized (some total_size) a =
      if ltb 0 total_size && not a.has_chunk
      then returned e.invalid_value a
      else receive total_size a

  unfoldable pub download_file_cb : DownloadArgs → Callback
  unfolding receive_sized
  download_file_cb args =
      let a = record args { status_code = r.status_code } in
      if is_negative r.req_id
      then returned e.invalid_id a
      else if not (is_good_status r.status_code)
      then returned 404 a
      else if args.want_partial && not (r.status_code == 206)
      then returned e.invalid_value (record a { range_ignored = true })
      else receive_sized (total_size_of args.data_size r.content_length) a
