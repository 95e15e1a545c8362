-- ===== src/Files/Reading.antt =====
-- What is read of a file, in how many calls soever.
use ps4rpi.Prelude.{
  ℕ, zero, suc, ◌+◌, ◌-◌, ◌%◌, ◌^◌, ◌≤◌, ◌<◌, ◌&&◌, ◌≡◌, ◌⊎◌, inl, inr, refl, sym, ap, ◌∙◌, true,
  false, Bool-cases, Option, none, some, [], ◌∷◌, ◌++◌, ltb, length, length-append, take, drop,
  take_all, length-take, length-drop, Bytes, arith,
}
use ps4rpi.Files.{Source, followed_by, read_from, text_of, text_sized, read_text_file}

module _ (f : Source) where
  -- `read` stores no more than was asked.
  abbrev pub IsBounded : Type 0
  IsBounded = (offset room : ℕ) → length (f.read offset room) ≤ room

  -- `read` has the file's content: from an offset in it, some of the bytes there, and at least one
  -- where any are asked for.
  abbrev pub Holds : Bytes → Type 0
  Holds content =
      (offset room : ℕ)
      → offset < length content
      → 0 < room
      → (n : ℕ) × (0 < n)
        × (n ≤ room)
        × (n ≤ length content - offset)
        × (f.read offset room ≡ take n (drop offset content))

  length-followed_by :
      (chunk rest : Bytes) (room : ℕ)
      → length chunk ≤ room
      → length rest ≤ room - length chunk
      → length (followed_by chunk rest) ≤ room
  length-followed_by [] rest room h g = omega arith
  length-followed_by (c ∷ chunk) rest room h g = omega (arith, h, g, length-append chunk rest)

  pub length-read_from :
      IsBounded
      → (fuel size total : ℕ) → total ≤ size
      → length (read_from f fuel size total) ≤ size - total
  unfolding read_from
  length-read_from bounded zero size total h = omega arith
  length-read_from bounded (suc fuel) size total h = elim (Bool-cases (ltb total size)) [
    | inr done ↦ rw done (omega arith)
    | inl more ↦
        let room = bounded total (size - total) in
        let next =
          length-read_from bounded fuel size (total + length (f.read total (size - total)))
            (omega (arith, room, h)) in
        rw more (
          length-followed_by (f.read total (size - total)) _ (size - total) room
            (omega (arith, next)))
  ]

  take_more :
      (n r : ℕ) (xs : Bytes) → n ≤ length xs → take n xs ++ take r (drop n xs) ≡ take (n + r) xs
  take_more zero r xs h = let same : 0 + r ≡ r = omega arith in rw same refl
  take_more (suc n) r [] h = absurd (omega (arith, h))
  take_more (suc n) r (x ∷ xs) h =
      let same : suc n + r ≡ suc (n + r) = omega arith in
      rw (same, take_more n r xs (omega (arith, h))) refl

  drop-drop : (a b : ℕ) (xs : Bytes) → drop a (drop b xs) ≡ drop (b + a) xs
  drop-drop a zero xs = let same : 0 + a ≡ a = omega arith in rw same refl
  drop-drop zero (suc b) [] = let same : suc b + 0 ≡ suc b = omega arith in rw same refl
  drop-drop (suc a) (suc b) [] =
      let same : suc b + suc a ≡ suc (b + suc a) = omega arith in rw same refl
  drop-drop a (suc b) (x ∷ xs) =
      let same : suc b + a ≡ suc (b + a) = omega arith in rw (same, drop-drop a b xs) refl

  followed_by_append : (s rest : Bytes) → 0 < length s → followed_by s rest ≡ s ++ rest
  followed_by_append [] rest h = absurd (omega (arith, h))
  followed_by_append (c ∷ s) rest h = refl

  -- one call that read `n` bytes, and the calls after it
  step_content :
      (content rest : Bytes) (size total n : ℕ)
      → 0 < n
      → n ≤ size - total
      → n ≤ length (drop total content)
      → rest ≡ take (size - (total + n)) (drop (total + n) content)
      → followed_by (take n (drop total content)) rest ≡ take (size - total) (drop total content)
  step_content content rest size total n pos room there same =
      let len : length (take n (drop total content)) ≡ n =
        omega (arith, length-take n (drop total content), there) in
      let split : n + (size - (total + n)) ≡ size - total = omega (arith, room) in
      followed_by_append (take n (drop total content)) rest (omega (arith, len, pos))
      ∙ ap (λ r. take n (drop total content) ++ r)
          (same ∙ ap (take (size - (total + n))) (sym (drop-drop n total content)))
      ∙ take_more n (size - (total + n)) (drop total content) there
      ∙ ap (λ m. take m (drop total content)) split

  -- The fuel is enough where it is at least the number of bytes left.
  read_from-content :
      (content : Bytes)
      → Holds content
      → (fuel size total : ℕ) → total ≤ size
      → size ≤ length content
      → size - total ≤ fuel
      → read_from f fuel size total ≡ take (size - total) (drop total content)
  unfolding read_from
  read_from-content content holds zero size total h g enough =
      let none_left : size - total ≡ 0 = omega (arith, enough) in rw none_left refl
  read_from-content content holds (suc fuel) size total h g enough =
      elim (Bool-cases (ltb total size)) [
        | inr done ↦ let none_left : size - total ≡ 0 = ground arith in rw (done, none_left) refl
        | inl more ↦
            let below : total < size = ground arith in
            let (n, pos, room, there, same) =
              holds total (size - total) (omega (arith, below, g)) (omega (arith, below)) in
            let in_file : n ≤ length (drop total content) =
              omega (arith, there, length-drop total content) in
            let len : length (take n (drop total content)) ≡ n =
              omega (arith, length-take n (drop total content), in_file) in
            rw (more, same, len)
              (step_content content (read_from f fuel size (total + n)) size total n pos room
                in_file
                (read_from-content content holds fuel size (total + n)
                  (omega (arith, room, h, below)) g (omega (arith, enough, pos, below))))
      ]

  -- `read_text_file` gives the whole content of a file, however many calls that takes, where the file
  -- opens, its size is known and within the limit if there is one, and there is memory for the content
  -- and a terminator.
  pub read_text_file_whole :
      (content : Bytes) (max_size : ℕ)
      → Holds content
      → f.opens ≡ true
      → f.file_size ≡ some (length content)
      → f.malloc ((length content + 1) % 2 ^ 64) ≡ true
      → ((max_size ≡ 0) ⊎ (length content ≤ max_size))
      → read_text_file f max_size ≡ some content
  unfolding read_text_file text_sized text_of
  read_text_file_whole content max_size holds opens known memory limit =
      let fits : ltb 0 max_size && ltb max_size (length content) ≡ false = ground arith in
      let whole : read_from f (length content) (length content) 0 ≡ content =
        read_from-content content holds (length content) (length content) 0 (omega arith)
          (omega arith) (omega arith)
        ∙ take_all (length content - 0) content (omega arith) in
      rw (opens, known, fits, memory, whole) refl

  text_of_taken :
      (max_size size : ℕ) {text : Bytes}
      → text_of f max_size size ≡ some text
      → (read_from f size size 0 ≡ text) × ((max_size ≡ 0) ⊎ (size ≤ max_size))
  unfolding text_of
  text_of_taken max_size size e = ground arith

  -- The file's size is known and within the limit, and the text is no longer.
  abbrev pub IsWithin : ℕ → Option ℕ → Bytes → Type 0
  IsWithin max_size known text =
      (size : ℕ) × (known ≡ some size) × (length text ≤ size) × ((max_size ≡ 0) ⊎ (size ≤ max_size))

  text_sized-IsWithin :
      (max_size : ℕ) (known : Option ℕ) {text : Bytes}
      → IsBounded
      → text_sized f max_size known ≡ some text
      → IsWithin max_size known text
  unfolding text_sized
  text_sized-IsWithin max_size none bounded e = cc
  text_sized-IsWithin max_size (some size) bounded e =
      let (same, limit) = text_of_taken max_size size e in
      (
        size,
        refl,
        rw (← same) (omega (arith, length-read_from bounded size size 0 (omega arith))),
        limit,
      )

  -- Whatever the calls do, where no `read` stores more than was asked: `read_text_file` stores no
  -- more bytes than the size that the file was said to have, which is within the limit if there is
  -- one.
  pub read_text_file-IsWithin :
      (max_size : ℕ) {text : Bytes}
      → IsBounded
      → read_text_file f max_size ≡ some text
      → IsWithin max_size f.file_size text
  unfolding read_text_file
  read_text_file-IsWithin max_size bounded e =
      text_sized-IsWithin max_size f.file_size bounded (ground arith)
