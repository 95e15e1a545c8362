-- ===== src/Package/Header.antt =====
-- RPI/pkg.h and RPI/pkg.c, the header and the entry table of a package: the fields that are read,
-- `pkg_is_patch`, and the loop of `pkg_setup_prerequisites` over the table.
use ps4rpi.Prelude.{
  ℕ, zero, suc, ◌+◌, ◌*◌, ◌/◌, ◌%◌, ◌^◌, Bool, true, ◌||◌, [], ◌∷◌, if◌then◌else◌, ◌==◌, take, drop,
  Bytes,
}
use ps4rpi.Sfo.{byte_at}

-- big-endian numbers at an offset
abbrev pub be16_at : Bytes → ℕ → ℕ
be16_at d offset = 256 * byte_at d offset + byte_at d (offset + 1)

abbrev pub be32_at : Bytes → ℕ → ℕ
be32_at d offset = 65536 * be16_at d offset + be16_at d (offset + 2)

abbrev pub be64_at : Bytes → ℕ → ℕ
be64_at d offset = 2 ^ 32 * be32_at d offset + be32_at d (offset + 4)

-- sizeof(struct pkg_header) and sizeof(struct pkg_table_entry)
abbrev pub sizeof_pkg_header : ℕ
sizeof_pkg_header = 0x2000

abbrev pub sizeof_pkg_table_entry : ℕ
sizeof_pkg_table_entry = 0x20

abbrev pub pkg_magic : Bytes
pkg_magic = 0x7F ∷ b'C' ∷ b'N' ∷ b'T' ∷ []

-- the fields of `struct pkg_header` that are read
abbrev pub entry_count_of : Bytes → ℕ
entry_count_of hdr = be32_at hdr 0x10

abbrev pub entry_table_offset_of : Bytes → ℕ
entry_table_offset_of hdr = be32_at hdr 0x18

abbrev pub content_type_field : Bytes → ℕ
content_type_field hdr = be32_at hdr 0x74

abbrev pub content_flags_of : Bytes → ℕ
content_flags_of hdr = be32_at hdr 0x78

abbrev pub package_size_of : Bytes → ℕ
package_size_of hdr = be64_at hdr 0x430

abbrev pub digest_of : Bytes → Bytes
digest_of hdr = take 0x20 (drop 0xFE0 hdr)

abbrev has_bit : ℕ → ℕ → Bool
has_bit k flags = flags / 2 ^ k % 2 == 1

-- Each test is of a mask: FIRST_PATCH has bit 20, SUBSEQUENT_PATCH 30, DELTA_PATCH 30 and 24,
-- CUMULATIVE_PATCH 30 and 29.
unfoldable pub pkg_is_patch : Bytes → Bool
pkg_is_patch hdr =
    let flags = content_flags_of hdr in
    if has_bit 20 flags
    then true
    else if has_bit 30 flags
    then true
    else if has_bit 30 flags || has_bit 24 flags
    then true
    else has_bit 30 flags || has_bit 29 flags

-- where the entries that are wanted are, as the loop over the table leaves it
pub record Entries : Type 0 where
  pub param_sfo_offset : ℕ
  pub param_sfo_size : ℕ
  pub icon0_png_offset : ℕ
  pub icon0_png_size : ℕ

abbrev pub no_entries : Entries
no_entries = record {
  param_sfo_offset = 0;
  param_sfo_size = 0;
  icon0_png_offset = 0;
  icon0_png_size = 0;
}

-- the body of the loop, at entry `i`
take_entry : Bytes → ℕ → Entries → Entries
take_entry table i found =
    let at = i * sizeof_pkg_table_entry in
    if be32_at table at == 0x1000
    then record found {
      param_sfo_offset = be32_at table (at + 0x10);
      param_sfo_size = be32_at table (at + 0x14);
    }
    else if be32_at table at == 0x1200
    then record found {
      icon0_png_offset = be32_at table (at + 0x10);
      icon0_png_size = be32_at table (at + 0x14);
    }
    else found

unfoldable pub find_entries : Bytes → (left i : ℕ) → Entries → Entries
unfolding take_entry
find_entries table zero i found = found
find_entries table (suc left) i found = find_entries table left (i + 1) (take_entry table i found)
