-- ===== src/Sfo/File.antt =====
-- RPI/sfo.c, `sfo_load_from_file`: the file is read in one call, which has to give all of it.
use ps4rpi.Prelude.{ℕ, Bool, not, Option, none, some, List, if◌then◌else◌, ◌==◌, length}
use ps4rpi.Files.{Source}
use ps4rpi.Sfo.{Entry, Outcome, failed, sfo_load_from_memory}

module _ (malloc : ℕ → ℕ → Bool) where
  load_sized : Source → Option ℕ → Outcome (List Entry)
  load_sized f none = failed
  load_sized f (some data_size) =
      if not (f.malloc data_size)
      then failed
      else let text = f.read 0 data_size in
        if length text == data_size then sfo_load_from_memory malloc text else failed

  unfoldable pub sfo_load_from_file : Source → Outcome (List Entry)
  unfolding load_sized
  sfo_load_from_file f = if not f.opens then failed else load_sized f f.file_size
