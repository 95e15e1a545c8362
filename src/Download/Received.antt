-- ===== src/Download/Received.antt =====
-- What a callback that succeeds has kept of the response.
use ps4rpi.Prelude.{
  ℕ, zero, suc, ◌+◌, ◌-◌, ◌%◌, ◌^◌, ◌≤◌, ◌<◌, min, ◌≡◌, ◌≢◌, ◌⊎◌, inl, inr, refl, sym, ap, ◌∙◌,
  true, false, not, ◌&&◌, Bool-cases, Option, none, some, [], ◌∷◌, ◌==◌, ltb, length, length-append,
  Bytes, arith,
}
use ps4rpi.Download.{
  HttpErrors, DownloadArgs, ReadData, read_failed, got, Transfer, Response, Callback,
  is_good_status, transfer_step, count_of, transfer, or_max, total_size_of, receive, receive_sized,
  download_file_cb,
}
use ps4rpi.Download.Reads.{Reads, transfer-Reads}

-- The codes are errors.
pub record AreErrors (e : HttpErrors) : Type 0 where
  pub invalid_id_error : e.invalid_id ≢ 0
  pub invalid_value_error : e.invalid_value ≢ 0
  pub no_content_length_error : e.no_content_length ≢ 0
  pub out_of_memory_error : e.out_of_memory ≢ 0

module _ (e : HttpErrors) (r : Response) where
  -- A read stores no more than was asked.
  abbrev pub IsBounded : Type 0
  IsBounded = (offset room : ℕ) → count_of (r.read offset room) ≤ room

  -- What the callback has kept: of a good response, which is partial if that was asked for, no more
  -- bytes than the total, which is at most what the caller asked for and at most what the response
  -- says that it has; that number is kept too. The bytes are those read in order from the first on.
  -- The buffer has one byte more than the total, in 64 bits.
  pub record IsReceived (a : DownloadArgs) (c : Callback) : Type 0 where
    pub good : (r.status_code ≡ 200) ⊎ (r.status_code ≡ 206)
    pub partial : (a.want_partial ≡ false) ⊎ (r.status_code ≡ 206)
    pub stored : Bytes
    pub kept : c.args.data_stored ≡ some stored
    pub counted : c.args.actual_size ≡ length stored
    pub total : total_size_of a.data_size r.content_length ≡ some c.args.data_size
    pub reads : Reads r c.args.chunk_size c.args.data_size 0 stored
    pub allocated : r.malloc ((c.args.data_size + 1) % 2 ^ 64) ≡ true
    pub ends : (c.args.data_size ≡ a.data_size) ⊎ (r.content_length ≡ some c.args.data_size)
    pub within : length stored ≤ c.args.data_size
    pub held : c.args.data_size + 1 < 2 ^ 64 → length stored < (c.args.data_size + 1) % 2 ^ 64
    pub asked : c.args.data_size ≤ a.data_size
    pub told : c.args.data_size ≤ or_max r.content_length
    pub reported : c.args.content_length ≡ or_max r.content_length

  good_status : {code : ℕ} → is_good_status code ≡ true → (code ≡ 200) ⊎ (code ≡ 206)
  unfolding is_good_status
  good_status h = ground arith

  step-le :
      (chunk_size room : ℕ) (step : ReadData) (rest : Transfer)
      → count_of step ≤ room
      → length rest.received ≤ room - count_of step
      → length (transfer_step step rest).received ≤ room
  unfolding transfer_step
  step-le chunk_size room (read_failed code) rest h g = omega arith
  step-le chunk_size room (got []) rest h g = omega arith
  step-le chunk_size room (got (c ∷ s)) rest h g =
      omega (arith, h, g, length-append s rest.received)

  length-transfer :
      (chunk_size fuel total_size cur_size : ℕ)
      → IsBounded
      → cur_size ≤ total_size
      → length (transfer r chunk_size fuel total_size cur_size).received ≤ total_size - cur_size
  unfolding transfer
  length-transfer chunk_size zero total_size cur_size bounded h = omega arith
  length-transfer chunk_size (suc fuel) total_size cur_size bounded h =
      elim (Bool-cases (ltb cur_size total_size)) [
        | inr over ↦ rw over (omega arith)
        | inl left ↦
            let step = r.read cur_size (min (total_size - cur_size) chunk_size) in
            let room = bounded cur_size (min (total_size - cur_size) chunk_size) in
            let next =
              length-transfer chunk_size fuel total_size (cur_size + count_of step) bounded
                (omega (arith, room, h)) in
            rw left (
              step-le chunk_size (total_size - cur_size) step _ (omega (arith, room))
                (omega (arith, next)))
      ]

  total_size-le :
      (data_size total : ℕ) (o : Option ℕ)
      → data_size < 2 ^ 64
      → or_max o < 2 ^ 64
      → total_size_of data_size o ≡ some total
      → (total ≤ data_size) × (total ≤ or_max o)
  unfolding total_size_of
  total_size-le data_size total none word most same = ground arith
  total_size-le data_size total (some n) word most same = ground arith

  total_size_is :
      (data_size total : ℕ) (o : Option ℕ)
      → data_size < 2 ^ 64
      → total_size_of data_size o ≡ some total
      → (total ≡ data_size) ⊎ (o ≡ some total)
  unfolding total_size_of
  total_size_is data_size total none word same = ground arith
  total_size_is data_size total (some n) word same = elim (Bool-cases (data_size == 2 ^ 64 - 1)) [
    | inl unknown ↦ inr (rw unknown at same)
    | inr known ↦ elim (Bool-cases (ltb n data_size)) [
      | inl shorter ↦ inr (rw (known, shorter) at same)
      | inr enough ↦ inl (let e : some data_size ≡ some total = rw (known, enough) at same in cc)
    ]
  ]

  receive-IsReceived :
      (a b : DownloadArgs) (total : ℕ)
      → AreErrors e
      → IsBounded
      → is_good_status r.status_code ≡ true
      → ((a.want_partial ≡ false) ⊎ (r.status_code ≡ 206))
      → total_size_of a.data_size r.content_length ≡ some total
      → (total ≡ a.data_size) ⊎ (r.content_length ≡ some total)
      → (total ≤ a.data_size) × (total ≤ or_max r.content_length)
      → (receive e r total b).ret ≡ 0
      → IsReceived a (receive e r total b)
  unfolding receive
  receive-IsReceived a b total errors bounded good partial same ends (asked, told) ok =
      elim (Bool-cases (r.malloc ((total + 1) % 2 ^ 64))) [
        | inr scarce ↦ let failing = errors.out_of_memory_error in absurd (failing (ground arith))
        | inl memory ↦
            let t = transfer r b.chunk_size total total 0 in
            let fits = length-transfer b.chunk_size total total 0 bounded (omega arith) in
            let ended : t.ret ≡ 0 = rw memory at ok in
            rw memory (record {
              good = good_status good;
              partial = partial;
              stored = t.received;
              kept = refl;
              counted = refl;
              total = same;
              ends = ends;
              reads = transfer-Reads r b.chunk_size total total 0 (omega arith) ended;
              allocated = memory;
              within = omega (arith, fits);
              held = λ small. omega (arith, fits, small);
              asked = asked;
              told = told;
              reported = refl;
            })
      ]

  sized :
      (o : Option ℕ) (b : DownloadArgs)
      → AreErrors e
      → (receive_sized e r o b).ret ≡ 0
      → (total : ℕ) × (o ≡ some total) × (receive_sized e r o b ≡ receive e r total b)
  unfolding receive_sized
  sized none b errors ok = absurd (errors.no_content_length_error ok)
  sized (some total) b errors ok = elim (Bool-cases (ltb 0 total && not b.has_chunk)) [
    | inl chunkless ↦ let failing = errors.invalid_value_error in absurd (failing (ground arith))
    | inr fine ↦ (total, refl, rw fine refl)
  ]

  started :
      (a : DownloadArgs)
      → AreErrors e
      → (download_file_cb e r a).ret ≡ 0
      → (is_good_status r.status_code ≡ true)
        × ((a.want_partial ≡ false) ⊎ (r.status_code ≡ 206))
        × (download_file_cb e r a
            ≡ receive_sized e r
                (total_size_of a.data_size r.content_length)
                (record a { status_code = r.status_code }))
  unfolding download_file_cb
  started a errors ok =
      let bad_id = errors.invalid_id_error in
      let bad_value = errors.invalid_value_error in (ground arith, ground arith, ground arith)

  -- Where `download_file_cb` returns 0, the response was a good one, and a partial one if the caller
  -- asked for a part; what it stored are the bytes read from the first on, in order, as many as it
  -- says, and at most the total, which is what the caller asked for or the length of the response,
  -- and at most either; that length it reports. With the zero behind them they fit in the buffer, except for a
  -- total of 2^64 - 1 bytes, where the size of the buffer wraps to 0. No read stores more than was
  -- asked, and the codes for errors are not 0.
  pub download_file_cb-IsReceived :
      (a : DownloadArgs)
      → AreErrors e
      → IsBounded
      → a.data_size < 2 ^ 64
      → or_max r.content_length < 2 ^ 64
      → (download_file_cb e r a).ret ≡ 0
      → IsReceived a (download_file_cb e r a)
  download_file_cb-IsReceived a errors bounded word most ok =
      let (good, partial, begun) = started a errors ok in
      let b : DownloadArgs = record a { status_code = r.status_code } in
      let (total, same, whole) =
        sized (total_size_of a.data_size r.content_length) b errors
          (ap (λ c. c.ret) (sym begun) ∙ ok) in
      rw (begun, whole)
        (receive-IsReceived a b total errors bounded good partial same
          (total_size_is a.data_size total r.content_length word same)
          (total_size-le a.data_size total r.content_length word most same)
          (ap (λ c. c.ret) (sym (begun ∙ whole)) ∙ ok))
