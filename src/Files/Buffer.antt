-- ===== src/Files/Buffer.antt =====
-- What `read_file` says of its buffer: the caller's, which needs a limit, or one that it allocates.
use ps4rpi.Prelude.{
  ℕ, ◌^◌, ◌≤◌, ◌<◌, min, ◌≡◌, ◌⊎◌, inl, inr, refl, sym, ap, ◌∙◌, Bool, true, false, Bool-cases,
  some, length, Bytes, arith,
}
use ps4rpi.Files.{
  Source, read_from, Read, size_unknown, user_size_of, read_done, is_limit, read_sized, read_file,
}
use ps4rpi.Files.Reading.{IsBounded, length-read_from}

module _ (f : Source) where
  -- What a successful `read_file` says of the file and of the buffer.
  pub record IsRead (has_buffer : Bool) (size max_size : ℕ) (r : Read) : Type 0 where
    pub file_size : ℕ
    pub known : f.file_size ≡ some file_size
    pub stored : Bytes
    pub in_buffer : r.buffer ≡ some stored
    pub counted : r.nread ≡ length stored
    pub within_size : r.nread ≤ r.size
    pub within_file : r.size ≤ file_size
    pub within_asked : r.size ≤ size
    pub within_limit :
        ((has_buffer ≡ false) × ((max_size ≡ 0) ⊎ (max_size ≡ size_unknown))) ⊎ (r.size ≤ max_size)

  done-IsRead :
      (has_buffer : Bool) (size max_size file_size user_size : ℕ)
      → IsBounded f
      → f.file_size ≡ some file_size
      → user_size ≤ file_size
      → user_size ≤ size
      → ((has_buffer ≡ false) × ((max_size ≡ 0) ⊎ (max_size ≡ size_unknown)))
        ⊎ (user_size ≤ max_size)
      → IsRead has_buffer size max_size (read_done f user_size)
  unfolding read_done
  done-IsRead has_buffer size max_size file_size user_size bounded known in_file asked limit =
      record {
        file_size = file_size;
        known = known;
        stored = read_from f user_size user_size 0;
        in_buffer = refl;
        counted = refl;
        within_size = omega (arith, length-read_from f bounded user_size user_size 0 (omega arith));
        within_file = in_file;
        within_asked = asked;
        within_limit = limit;
      }

  user_size_of-le :
      (size file_size : ℕ)
      → size < 2 ^ 64
      → file_size < 2 ^ 64
      → (user_size_of size file_size ≤ file_size) × (user_size_of size file_size ≤ size)
  user_size_of-le size file_size h g = ground arith

  limited_buffer :
      (size max_size n : ℕ)
      → (read_sized f true size max_size (some n)).status ≡ true
      → is_limit max_size ≡ true
  unfolding read_sized
  limited_buffer size max_size n ok = elim (Bool-cases (is_limit max_size)) [
    | inl limited ↦ limited
    | inr unlimited ↦ let h : false ≡ true = rw (← ok, unlimited) refl in cc
  ]

  -- where `read_file` allocates the buffer
  allocated-IsRead :
      (size max_size n : ℕ)
      → IsBounded f
      → size < 2 ^ 64
      → n < 2 ^ 64
      → f.file_size ≡ some n
      → (read_sized f false size max_size (some n)).status ≡ true
      → IsRead false size max_size (read_sized f false size max_size (some n))
  unfolding read_sized
  allocated-IsRead size max_size n bounded word file_word known ok =
      let (in_file, asked) = user_size_of-le size n word file_word in
      elim (Bool-cases (is_limit max_size)) [
        | inl limited ↦
            let memory : f.malloc (min (user_size_of size n) max_size) ≡ true = ground arith in
            rw (limited, memory)
              (done-IsRead false size max_size n (min (user_size_of size n) max_size) bounded known
                (omega (arith, in_file)) (omega (arith, asked)) (inr (omega arith)))
        | inr unlimited ↦
            let memory : f.malloc (user_size_of size n) ≡ true = ground arith in
            rw (unlimited, memory)
              (done-IsRead false size max_size n (user_size_of size n) bounded known in_file asked
                (inl (refl, ground arith)))
      ]

  sized-IsRead :
      (has_buffer : Bool) (size max_size n : ℕ)
      → IsBounded f
      → size < 2 ^ 64
      → n < 2 ^ 64
      → f.file_size ≡ some n
      → (read_sized f has_buffer size max_size (some n)).status ≡ true
      → IsRead has_buffer size max_size (read_sized f has_buffer size max_size (some n))
  unfolding read_sized
  sized-IsRead true size max_size n bounded word file_word known ok =
      let (in_file, asked) = user_size_of-le size n word file_word in
      rw (limited_buffer size max_size n ok) (
        done-IsRead true size max_size n (min (user_size_of size n) max_size) bounded known
          (omega (arith, in_file)) (omega (arith, asked)) (inr (omega arith)))
  sized-IsRead false size max_size n bounded word file_word known ok =
      allocated-IsRead size max_size n bounded word file_word known ok

  opened :
      (has_buffer : Bool) (size max_size n : ℕ)
      → f.file_size ≡ some n
      → (read_file f has_buffer size max_size).status ≡ true
      → read_file f has_buffer size max_size ≡ read_sized f has_buffer size max_size (some n)
  unfolding read_file
  opened has_buffer size max_size n known ok = ground arith

  -- Where `read_file` succeeds, on a file whose size is known, and no `read` stores more than was
  -- asked: it has counted the bytes that it stored, they are no more than `*size` says, and that is
  -- at most the size of the file and at most what was asked. It is also at most the limit, or there
  -- is none and the buffer is not the caller's.
  pub read_file-IsRead :
      (has_buffer : Bool) (size max_size n : ℕ)
      → IsBounded f
      → size < 2 ^ 64
      → n < 2 ^ 64
      → f.file_size ≡ some n
      → (read_file f has_buffer size max_size).status ≡ true
      → IsRead has_buffer size max_size (read_file f has_buffer size max_size)
  read_file-IsRead has_buffer size max_size n bounded word file_word known ok =
      let same = opened has_buffer size max_size n known ok in
      rw same (
        sized-IsRead has_buffer size max_size n bounded word file_word known
          (ap (λ r. r.status) (sym same) ∙ ok))
