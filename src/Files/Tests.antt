-- ===== src/Files/Tests.antt =====
-- A file read two bytes at a time, and one written so.
use ps4rpi.Prelude.{
  ◌-◌, min, ◌≡◌, inr, refl, true, some, length, take, drop, length-take, Bytes, codes, arith,
}
use ps4rpi.Files.{Source, read_from, read_text_file, read_file, Sink, write_file}
use ps4rpi.Files.Reading.{IsBounded, Holds, read_text_file_whole}
use ps4rpi.Files.Buffer.{IsRead, read_file-IsRead}
use ps4rpi.Files.Writing.{IsHonest, IsLive, write_file_all}

abbrev content : Bytes
content = codes "{ \"a\": 1 }"

abbrev two_at_once : Source
two_at_once = record {
  opens = true;
  file_size = some 10;
  read = λ offset room. take (min (min 2 room) (length content - offset)) (drop offset content);
  malloc = λ n. true;
}

two_at_once-Holds : Holds two_at_once content
two_at_once-Holds offset room below asked =
    (min (min 2 room) (length content - offset), omega arith, omega arith, omega arith, refl)

two_at_once-IsBounded : IsBounded two_at_once
two_at_once-IsBounded offset room =
    omega (arith, length-take (min (min 2 room) (length content - offset)) (drop offset content))

reads_text : read_text_file two_at_once 64 ≡ some content
unfolding read_text_file read_from
reads_text = refl

read_text_file_whole_example : read_text_file two_at_once 64 ≡ some content
read_text_file_whole_example =
    read_text_file_whole two_at_once content 64 two_at_once-Holds refl refl refl (inr (omega arith))

read_returned : (read_file two_at_once true 4 8).status ≡ true
unfolding read_file read_from
read_returned = refl

read_file-IsRead_example : IsRead two_at_once true 4 8 (read_file two_at_once true 4 8)
read_file-IsRead_example =
    read_file-IsRead two_at_once true 4 8 10 two_at_once-IsBounded (omega arith) (omega arith) refl
      read_returned

abbrev two_taken : Sink
two_taken = record { opens = true; write = λ offset given. min 2 (length given) }

two_taken-IsHonest : IsHonest two_taken
two_taken-IsHonest offset given = omega arith

two_taken-IsLive : IsLive two_taken
two_taken-IsLive offset given some_left = omega (arith, some_left)

write_file_all_example : write_file two_taken content ≡ record { status = true; bytes = content }
write_file_all_example = write_file_all two_taken content two_taken-IsHonest two_taken-IsLive refl
