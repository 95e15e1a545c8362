-- ===== src/Cleanup/Tests.antt =====
-- A directory with one file.
use ps4rpi.Prelude.{
  ℕ, ◌+◌, ◌≡◌, ◌⊎◌, refl, Option, true, none, some, [], ◌∷◌, ◌++◌, All, Bytes, codes, str_eq, arith,
}
use ps4rpi.Text.{starts_with, ends_with}
use ps4rpi.Sfo.{cstring}
use ps4rpi.Cleanup.{Directory, is_temp, Ending, walk, cleanup_temp_files}
use ps4rpi.Cleanup.Walk.{IsOldTemp, walk_enough, cleanup_temp_files-All}

-- a regular file with the name tmp_1.json, in a record of 24 bytes
abbrev one_record : Bytes
one_record = 0 ∷ 0 ∷ 0 ∷ 0 ∷ 1 ∷ 0 ∷ 0 ∷ 0 ∷ 24 ∷ 0 ∷ 8 ∷ 10 ∷ (codes "tmp_1.json" ++ (0 ∷ 0 ∷ []))

abbrev read_long_ago : Bytes → Option ℕ
read_long_ago path = some 1000

abbrev one_file : Directory
one_file = record {
  now = some 1000000;
  opens = true;
  chunks = one_record ∷ [];
  stat = read_long_ago;
}

unlinks :
    walk read_long_ago (codes "/data") 1000000 24 one_record 24 0
    ≡ record { unlinked = codes "/data/tmp_1.json" ∷ []; ending = Ending.finished }
unfolding walk is_temp str_eq cstring starts_with ends_with
unlinks = refl

walk_enough_example :
    walk read_long_ago (codes "/data") 1000000 (24 + 5) one_record 24 0
    ≡ walk read_long_ago (codes "/data") 1000000 24 one_record 24 0
walk_enough_example =
    walk_enough read_long_ago (codes "/data") 1000000 24 5 one_record 24 0 (omega arith)

cleanup_temp_files-All_example :
    ((one_file.now ≡ none) × (cleanup_temp_files one_file (codes "/data") ≡ []))
    ⊎ ((now : ℕ) × (one_file.now ≡ some now)
        × All
            (IsOldTemp read_long_ago (codes "/data") now)
            (cleanup_temp_files one_file (codes "/data")))
cleanup_temp_files-All_example = cleanup_temp_files-All one_file (codes "/data")
