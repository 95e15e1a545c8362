-- ===== src/Package/Setup.antt =====
-- RPI/pkg.c, `pkg_setup_prerequisites` from `fopen` on, and the whole function.
pub mod Unharmed
pub mod Tiles
pub mod OnDisk
pub mod Success
use ps4rpi.Prelude.{
  [], ℕ, suc, ◌+◌, ◌%◌, ◌^◌, Bool, true, false, not, ◌&&◌, Option, none, some, List, ◌∷◌, ◌++◌,
  if◌then◌else◌, ◌==◌, ltb, length, Bytes, codes,
}
use ps4rpi.Text.Decimal.{decimal, decimal_int}
use ps4rpi.Files.{write_file}
use ps4rpi.Disk.{Disk, unlink, put, put_written}
use ps4rpi.Tls.{SslVerify}
use ps4rpi.Package.Header.{pkg_is_patch, content_type_field, package_size_of}
use ps4rpi.Package.Inspect.{Inspected, inspect}
use ps4rpi.Package.{
  ◌>>=◌, ◌>>◌, Host, World, Outcome, ok, thrown, M, pure, PackageInfo, about, throw, require,
  piece_size,
}

abbrev pub comma : List Bytes → Bytes
comma [] = []
comma (url ∷ urls) = codes ","

-- one element of the pieces, as printed
unfoldable pub piece_text : (url : Bytes) → (offset size : ℕ) → (digest : Bytes) → Bytes
piece_text url offset size digest =
    codes "{\"url\":\""
    ++ (url
        ++ (codes "\",\"fileOffset\":"
            ++ (decimal offset
                ++ (codes ",\"fileSize\":"
                    ++ (decimal size ++ (codes ",\"hashValue\":\"" ++ (digest ++ codes "\"}")))))))

unfoldable pub head_text : (package_size : ℕ) → (digest : Bytes) → (piece_count : ℕ) → Bytes
head_text package_size digest piece_count =
    codes "{\"originalFileSize\":"
    ++ (decimal package_size
        ++ (codes ",\"packageDigest\":\""
            ++ (digest
                ++ (codes "\",\"numberOfSplitFiles\":"
                    ++ (decimal piece_count ++ codes ",\"pieces\":[")))))

-- the text of some pieces, and the offset after them
pub record Printed : Type 0 where
  pub text : Bytes
  pub offset : ℕ

module _ (h : Host) (error_buf_size : ℕ) (mode : SslVerify) where
  -- a piece with its comma, before the pieces after it
  abbrev pub before_rest : Bytes → ℕ → ℕ → Bytes → List Bytes → Printed → Printed
  before_rest url offset size digest urls rest = record {
    text = piece_text url offset size digest ++ (comma urls ++ rest.text);
    offset = rest.offset;
  }

  -- the pieces after the first
  pub more_pieces : (digest : Bytes) → List Bytes → (offset : ℕ) → M Printed
  unfolding piece_size
  more_pieces digest [] offset = pure (record { text = []; offset = offset })
  more_pieces digest (url ∷ urls) offset = do
    size ← piece_size h error_buf_size mode url
    rest ← more_pieces digest urls ((offset + size) % 2 ^ 64)
    pure (before_rest url offset size digest urls rest)

  -- the pieces, the first with the size that the header came with
  pub all_pieces : (url : Bytes) → List Bytes → Inspected → M Printed
  unfolding more_pieces
  all_pieces url urls found = do
    rest ← more_pieces found.piece_digest_str urls (found.total_size % 2 ^ 64)
    pure (before_rest url 0 found.total_size found.piece_digest_str urls rest)

  pub write_trunc : (path content message : Bytes) → M (Unit {0})
  unfolding require
  write_trunc path content message w =
      let written = write_file (h.sink path) content in
      require h error_buf_size mode written.status message
        (record w { disk = put_written (h.sink path).opens path written w.disk })

  pub write_icon : (path url : Bytes) → Option Bytes → M Bool
  unfolding write_trunc
  write_icon path url none = pure false
  write_icon path url (some icon) = do
    write_trunc path icon (about (codes "Unable to write icon0.png file for '") url)
    pure true

  -- what has been printed is in the file when it is closed
  pub close_text : (path text : Bytes) → M (Unit {0})
  close_text path text w = (ok tt, record w { disk = put path (h.printed text) w.disk })

  -- the paths are those of the reference JSON, param.sfo and the icon
  module _ (ref_pkg_json_path param_sfo_path icon0_png_path : Bytes) where
    pub whole_text : Inspected → (piece_count : ℕ) → Printed → Bytes
    whole_text found piece_count pieces =
        head_text (package_size_of found.hdr) found.pkg_digest_str piece_count
        ++ (pieces.text ++ codes "]}")

    -- the files, and whether there is an icon among them
    pub write_files : (url : Bytes) → Inspected → (text : Bytes) → M Bool
    unfolding write_trunc write_icon close_text
    write_files url found text = do
      write_trunc param_sfo_path found.param_sfo
          (about (codes "Unable to write param.sfo file for '") url)
      has_icon ← write_icon icon0_png_path url found.icon0_png
      close_text ref_pkg_json_path text
      pure has_icon

    abbrev pub fits : Inspected → Printed → Bool
    fits found pieces =
        not (ltb 0 (package_size_of found.hdr) && not (pieces.offset == package_size_of found.hdr))

    pub write_out : (url : Bytes) → List Bytes → Inspected → M PackageInfo
    unfolding all_pieces write_files whole_text require
    write_out url urls found = do
      pieces ← all_pieces url urls found
      require h error_buf_size mode (fits found pieces)
          (about (codes "Unexpected total file size for '") url)
      has_icon ← write_files url found (whole_text found (suc (length urls)) pieces)
      pure (record {
        content_type = content_type_field found.hdr;
        package_size = package_size_of found.hdr;
        is_patch = pkg_is_patch found.hdr;
        has_icon = has_icon;
      })

    pub unlink_all : Disk → Disk
    unlink_all disk = unlink ref_pkg_json_path (unlink param_sfo_path (unlink icon0_png_path disk))

    -- after `err_file_close`: what failed leaves none of the files
    pub or_unlink : Outcome PackageInfo × World → Outcome PackageInfo × World
    unfolding unlink_all
    or_unlink (ok info, w) = (ok info, w)
    or_unlink (thrown message, w) = (thrown message, record w { disk = unlink_all w.disk })

    pub open_and_write : (url : Bytes) → List Bytes → Inspected → M PackageInfo
    unfolding write_out or_unlink
    open_and_write url urls found w =
        if not (h.fopens ref_pkg_json_path)
        then throw h error_buf_size mode
            (codes "fopen("
              ++ (ref_pkg_json_path ++ (codes ") failed: " ++ (decimal_int h.errno ++ codes "\n"))))
            w
        else or_unlink
            (write_out url urls found (record w { disk = put ref_pkg_json_path [] w.disk }))

    pub unlink_first : M (Unit {0})
    unlink_first w = (
      ok tt,
      record w {
        disk = unlink icon0_png_path (unlink param_sfo_path (unlink ref_pkg_json_path w.disk));
      },
    )

    abbrev pub is_path : Bytes → Bool
    is_path [] = false
    is_path (c ∷ path) = true

    -- the URLs and the paths are no null pointers
    unfoldable pub pkg_setup_prerequisites : List Bytes → M PackageInfo
    unfolding inspect open_and_write unlink_first require
    pkg_setup_prerequisites [] = throw h error_buf_size mode (codes "No pieces.\n")
    pkg_setup_prerequisites (url ∷ urls) = do
      require h error_buf_size mode (is_path ref_pkg_json_path)
          (codes "Empty reference package json file path specified.\n")
      require h error_buf_size mode (is_path param_sfo_path)
          (codes "Empty param.sfo file path specified.\n")
      require h error_buf_size mode (is_path icon0_png_path)
          (codes "Empty icon0.png file path specified.\n")
      unlink_first
      found ← inspect h error_buf_size mode url (suc (length urls))
      open_and_write url urls found
