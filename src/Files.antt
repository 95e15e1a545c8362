-- ===== src/Files.antt =====
-- RPI/util.c, whole files read and written: `read_file`, `read_text_file`, `write_file`,
-- `write_file_trunc`. A call of `read` or `write` may do less than was asked, so each is a loop; it
-- ends when a call does nothing, or when nothing is left. The loops run on fuel.
pub mod Reading
pub mod Buffer
pub mod Writing
mod Tests
use ps4rpi.Prelude.{
  ℕ, zero, suc, ◌+◌, ◌-◌, ◌%◌, ◌^◌, min, Bool, true, false, not, ◌&&◌, Option, none, some, [], ◌∷◌,
  ◌++◌, if◌then◌else◌, ◌==◌, ltb, length, take, drop, Bytes,
}

-- A file as the system gives it: whether `open` and `fstat` succeed, and what `read` stores at an
-- offset for a number of bytes asked; nothing is an error or the end. `malloc` has the memory or not.
pub record Source : Type 0 where
  pub opens : Bool
  pub file_size : Option ℕ
  pub read : (offset room : ℕ) → Bytes
  pub malloc : ℕ → Bool

-- the bytes of a call, and those of the calls after it if it was not the last
abbrev pub followed_by : Bytes → Bytes → Bytes
followed_by [] rest = []
followed_by (c ∷ chunk) rest = (c ∷ chunk) ++ rest

-- the loop around `read`, to `size` bytes, from the total read
unfoldable pub read_from : Source → (fuel size total : ℕ) → Bytes
read_from f zero size total = []
read_from f (suc fuel) size total =
    let chunk = f.read total (size - total) in
    let rest = read_from f fuel size (total + length chunk) in
    if ltb total size then followed_by chunk rest else []

-- `max_size` is 0 for no limit. The result is what `*data` holds before its terminator, and none is
-- the return of false; `*size` is its length.
text_of : Source → (max_size file_size : ℕ) → Option Bytes
unfolding read_from
text_of f max_size file_size =
    if ltb 0 max_size && ltb max_size file_size
    then none
    else if not (f.malloc ((file_size + 1) % 2 ^ 64))
    then none
    else some (read_from f file_size file_size 0)

text_sized : Source → (max_size : ℕ) → Option ℕ → Option Bytes
unfolding text_of
text_sized f max_size none = none
text_sized f max_size (some file_size) = text_of f max_size file_size

unfoldable pub read_text_file : Source → (max_size : ℕ) → Option Bytes
unfolding text_sized
read_text_file f max_size = if not f.opens then none else text_sized f max_size f.file_size

-- What `read_file` returns and stores; the buffer is null on failure.
pub record Read : Type 0 where
  pub status : Bool
  pub buffer : Option Bytes
  pub size : ℕ
  pub nread : ℕ

abbrev read_failed : Read
read_failed = record { status = false; buffer = none; size = 0; nread = 0 }

abbrev pub size_unknown : ℕ
size_unknown = 2 ^ 64 - 1

-- `user_size` from `*size`
abbrev pub user_size_of : (size file_size : ℕ) → ℕ
user_size_of size file_size =
    if size == size_unknown then file_size else if ltb file_size size then file_size else size

abbrev is_limit : ℕ → Bool
is_limit max_size = ltb 0 max_size && not (max_size == size_unknown)

read_done : Source → (user_size : ℕ) → Read
unfolding read_from
read_done f user_size =
    let buffer = read_from f user_size user_size 0 in
    record { status = true; buffer = some buffer; size = user_size; nread = length buffer }

read_sized : Source → (has_buffer : Bool) → (size max_size : ℕ) → Option ℕ → Read
unfolding read_done
read_sized f has_buffer size max_size none = read_failed
read_sized f true size max_size (some file_size) =
    if is_limit max_size
    then read_done f (min (user_size_of size file_size) max_size)
    else read_failed
read_sized f false size max_size (some file_size) =
    let user_size =
      if is_limit max_size
      then min (user_size_of size file_size) max_size
      else user_size_of size file_size in
    if f.malloc user_size then read_done f user_size else read_failed

-- `has_buffer` is whether `*data` is the caller's buffer or null, `size` is `*size`
unfoldable pub read_file : Source → (has_buffer : Bool) → (size max_size : ℕ) → Read
unfolding read_sized
read_file f has_buffer size max_size =
    if not f.opens then read_failed else read_sized f has_buffer size max_size f.file_size

-- A file to write: whether it opens, and how many of the bytes given `write` takes at an offset; 0
-- is an error too.
pub record Sink : Type 0 where
  pub opens : Bool
  pub write : (offset : ℕ) → Bytes → ℕ

-- the loop around `write`: what was written, from the total written
unfoldable pub write_from : Sink → (fuel total : ℕ) → Bytes → ℕ
write_from f zero total data_left = total
write_from f (suc fuel) total data_left =
    let n = f.write total data_left in
    let later = write_from f fuel (total + n) (drop n data_left) in
    if length data_left == 0 then total else if n == 0 then total else later

-- What `write_file` returns, and the bytes that it wrote, which are `*nwritten` many.
pub record Written : Type 0 where
  pub status : Bool
  pub bytes : Bytes

unfoldable pub write_file : Sink → Bytes → Written
unfolding write_from
write_file f content =
    if not f.opens
    then record { status = false; bytes = [] }
    else let total = write_from f (length content) 0 content in
      record { status = total == length content; bytes = take total content }
