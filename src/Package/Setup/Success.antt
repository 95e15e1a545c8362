-- ===== src/Package/Setup/Success.antt =====
-- A package that was prepared: what is on the disk then, and what the caller is told.
use ps4rpi.Prelude.{
  ℕ, suc, ◌/◌, ◌||◌, ◌%◌, ◌^◌, ◌≡◌, ◌⊎◌, Bool, some, List, ◌∷◌, ◌++◌, ◌==◌, map, length, All, Bytes,
  codes,
}
use ps4rpi.Package.Inspect.Fetched.{Fetches}
use ps4rpi.Disk.{Disk}
use ps4rpi.Tls.{SslVerify}
use ps4rpi.Package.Header.{content_flags_of, content_type_field, package_size_of}
use ps4rpi.Package.Inspect.{Inspected}
use ps4rpi.Package.{Host, Outcome, ok, thrown, PackageInfo}
use ps4rpi.Package.Setup.{head_text}
use ps4rpi.Package.Setup.Tiles.{Piece, joined, text_of, Chain, IsReported, Tiles}
use ps4rpi.Package.Setup.OnDisk.{IsIcon}

-- the bit of the content flags
abbrev pub has_flag : ℕ → Bytes → Bool
has_flag bit hdr = content_flags_of hdr / 2 ^ bit % 2 == 1

module _ (h : Host) (error_buf_size : ℕ) (mode : SslVerify) where
  module _ (json sfo icon : Bytes) where
    -- What a preparation that succeeded has left: the checked header, the pieces and param.sfo that
    -- were found, and the three files.
    pub record IsPrepared (url : Bytes) (urls : List Bytes) (info : PackageInfo) (disk : Disk)
        : Type 0 where
      pub found : Inspected
      pub fetches : Fetches h error_buf_size mode url found
      pub pieces : List Piece
      pub end : ℕ
      pub first : ℕ
      pub first_sized : first ≡ found.total_size
      pub later : List Piece
      pub split : pieces ≡ record { url = url; offset = 0; size = first } ∷ later
      pub of_urls : map (λ p. p.url) pieces ≡ url ∷ urls
      pub chain : Chain 0 pieces end
      pub reported : All (IsReported h error_buf_size mode) later
      pub covers : (info.package_size ≡ 0) ⊎ (end ≡ info.package_size)
      pub described : info.package_size ≡ package_size_of found.hdr
      pub typed : info.content_type ≡ content_type_field found.hdr
      pub patched :
          info.is_patch
          ≡ has_flag 20 found.hdr
            || has_flag 24 found.hdr
            || has_flag 29 found.hdr
            || has_flag 30 found.hdr
      pub json_written :
          disk json
          ≡ some (
              h.printed (
                head_text info.package_size found.pkg_digest_str (suc (length urls))
                ++ (joined (map (text_of found.piece_digest_str) pieces) ++ codes "]}")))
      pub sfo_written : disk sfo ≡ some found.param_sfo
      pub icon_written :
          IsIcon h error_buf_size mode json sfo icon found.icon0_png info.has_icon disk

    -- so for an outcome
    abbrev pub IsResult : Bytes → List Bytes → Outcome PackageInfo → Disk → Type 0
    IsResult url urls (ok info) disk = IsPrepared url urls info disk
    IsResult url urls (thrown message) disk = Unit {0}
