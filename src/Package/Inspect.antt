-- ===== src/Package/Inspect.antt =====
-- RPI/pkg.c, `pkg_setup_prerequisites` up to `fopen`: the header, the entry table, param.sfo and the
-- icon are fetched and checked; nothing is put on the disk.
pub mod Kept
pub mod Fetched
use ps4rpi.Prelude.{
  ℕ, ◌*◌, true, not, ◌&&◌, ◌||◌, Option, none, some, if◌then◌else◌, ◌==◌, ltb, take, Bytes, codes,
  str_eq,
}
use ps4rpi.Text.{bytes_to_hex}
use ps4rpi.Sfo.{zeros, cstring, sfo_magic}
use ps4rpi.Tls.{SslVerify}
use ps4rpi.Package.Header.{
  sizeof_pkg_header, sizeof_pkg_table_entry, pkg_magic, entry_count_of, entry_table_offset_of,
  package_size_of, digest_of, Entries, no_entries, find_entries,
}
use ps4rpi.Package.{◌>>=◌, ◌>>◌, Host, M, pure, bytes_of, about, require, download}

-- what the first half finds out
pub record Inspected : Type 0 where
  pub hdr : Bytes
  pub total_size : ℕ
  pub param_sfo : Bytes
  pub icon0_png : Option Bytes
  pub pkg_digest_str : Bytes
  pub piece_digest_str : Bytes

module _ (h : Host) (error_buf_size : ℕ) (mode : SslVerify) where
  -- the string in the buffer after `bytes_to_hex`
  pub digest_str : (url : Bytes) → (buf_size : ℕ) → Bytes → M Bytes
  unfolding require
  digest_str url buf_size digest = do
    let r = bytes_to_hex h.hex true buf_size (some digest)
    require h error_buf_size mode (r.ret == 0) (about (codes "Unable to convert digest for '") url)
    pure (bytes_of (cstring r.stored))

  pub fetch_icon : (url : Bytes) → Entries → M (Option Bytes)
  unfolding download require
  fetch_icon url found =
      if ltb 0 found.icon0_png_offset && ltb 0 found.icon0_png_size
      then (do
        icon ←
            download h error_buf_size mode (about (codes "Unable to download icon0.png for '") url)
              url found.icon0_png_size found.icon0_png_offset
        require h error_buf_size mode (icon.data_size == found.icon0_png_size)
            (about (codes "icon0.png size mismatch for '") url)
        pure (some (bytes_of icon.content)))
      else pure none

  pub fetch_param_sfo : (url : Bytes) → Entries → M Bytes
  unfolding download require
  fetch_param_sfo url found = do
    require h error_buf_size mode (not (found.param_sfo_offset == 0 || found.param_sfo_size == 0))
        (about (codes "No param.sfo entry in package '") url)
    sfo ←
        download h error_buf_size mode (about (codes "Unable to download param.sfo for '") url) url
          found.param_sfo_size found.param_sfo_offset
    require h error_buf_size mode (sfo.data_size == found.param_sfo_size)
        (about (codes "param.sfo size mismatch for '") url)
    require h error_buf_size mode
        (not (ltb found.param_sfo_size 4 || not (str_eq (take 4 (bytes_of sfo.content)) sfo_magic)))
        (about (codes "Invalid param.sfo contents for '") url)
    pure (bytes_of sfo.content)

  -- the header, and the size of the file that it is in
  pub fetch_header : (url : Bytes) → (piece_count : ℕ) → M (Bytes × ℕ)
  unfolding download require
  fetch_header url piece_count = do
    d ←
        download h error_buf_size mode (about (codes "Unable to download package header for '") url)
          url sizeof_pkg_header 0
    require h error_buf_size mode (d.data_size == sizeof_pkg_header)
        (about (codes "Package header size mismatch for '") url)
    let hdr = bytes_of d.content
    require h error_buf_size mode (str_eq (take 4 hdr) pkg_magic)
        (about (codes "Invalid package format for '") url)
    require h error_buf_size mode
        (not (
          piece_count == 1
          && ltb 0 (package_size_of hdr)
          && not (d.total_size == package_size_of hdr)))
        (about (codes "Unexpected file size for '") url)
    pure (hdr, d.total_size)

  pub fetch_entries : (url hdr : Bytes) → M Entries
  unfolding download require find_entries
  fetch_entries url hdr = do
    let entry_table_size = entry_count_of hdr * sizeof_pkg_table_entry
    require h error_buf_size mode (not (entry_table_size == 0))
        (about (codes "Empty entry table for '") url)
    t ←
        download h error_buf_size mode
          (about (codes "Unable to download package entry table for '") url) url entry_table_size
          (entry_table_offset_of hdr)
    require h error_buf_size mode (t.data_size == entry_table_size)
        (about (codes "Package entry table size mismatch for '") url)
    pure (find_entries (bytes_of t.content) (entry_count_of hdr) 0 no_entries)

  -- up to `fopen`
  unfoldable pub inspect : (url : Bytes) → (piece_count : ℕ) → M Inspected
  unfolding fetch_header fetch_entries fetch_param_sfo fetch_icon digest_str
  inspect url piece_count = do
    header ← fetch_header url piece_count
    found ← fetch_entries url header.0
    param_sfo ← fetch_param_sfo url found
    icon0_png ← fetch_icon url found
    pkg_digest_str ← digest_str url 65 (digest_of header.0)
    piece_digest_str ← digest_str url 41 (zeros 20)
    pure (record {
      hdr = header.0;
      total_size = header.1;
      param_sfo = param_sfo;
      icon0_png = icon0_png;
      pkg_digest_str = pkg_digest_str;
      piece_digest_str = piece_digest_str;
    })
