-- ===== src/Sfo/Tests.antt =====
-- A file with one entry, and one that points outside.
use ps4rpi.Prelude.{ℕ, ◌+◌, ◌*◌, ◌≤◌, ◌≡◌, refl, true, [], ◌∷◌, ◌++◌, length, Bytes, codes, str_eq}
use ps4rpi.Sfo.{
  le32_at, Entry, fault, done, cstring, zeros, bytes_at, sizeof_sfo_header, sizeof_sfo_table_entry,
  sfo_magic, sfo_load_from_memory,
}
use ps4rpi.Sfo.Loading.{AreEntries, sfo_load_from_memory-AreEntries}

-- a little-endian number of 32 bits
abbrev word : ℕ → Bytes
word n = n ∷ 0 ∷ 0 ∷ 0 ∷ []

-- key table at 36, value table at 44; key "TITLE", value "Hi" in an area of 4
abbrev table_of : (value_offset : ℕ) → Bytes
table_of value_offset =
    sfo_magic
    ++ (word 1
        ++ (word 36
            ++ (word 44
                ++ (word 1
                    ++ (0
                        ∷ 0
                        ∷ 4
                        ∷ 2
                        ∷ (word 3
                            ++ (word 4
                                ++ (word value_offset
                                    ++ (codes "TITLE"
                                        ++ (0 ∷ 0 ∷ 0 ∷ (codes "Hi" ++ (0 ∷ []))))))))))))

abbrev title : Entry
title = record {
  key = codes "TITLE";
  size = 3;
  area = 4;
  value = codes "Hi" ++ (0 ∷ 0 ∷ []);
  format = 0x204;
}

loads_title : sfo_load_from_memory (λ i n. true) (table_of 0) ≡ done (title ∷ [])
unfolding sfo_load_from_memory cstring bytes_at zeros str_eq
loads_title = refl

-- the same file, with the value one byte further on
reads_outside : sfo_load_from_memory (λ i n. true) (table_of 1) ≡ fault
unfolding sfo_load_from_memory cstring bytes_at zeros str_eq
reads_outside = refl

sfo_load_from_memory-AreEntries_example :
    AreEntries (le32_at (table_of 0) 16) (title ∷ [])
    × (sizeof_sfo_header + le32_at (table_of 0) 16 * sizeof_sfo_table_entry ≤ length (table_of 0))
sfo_load_from_memory-AreEntries_example =
    sfo_load_from_memory-AreEntries (λ i n. true) (table_of 0) loads_title
