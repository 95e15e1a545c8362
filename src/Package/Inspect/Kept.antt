-- ===== src/Package/Inspect/Kept.antt =====
-- Inspecting a package leaves the disk alone.
use ps4rpi.Prelude.{ℕ, ◌&&◌, Bool-cases, inl, inr, ltb, Bytes}
use ps4rpi.Tls.{SslVerify}
use ps4rpi.Package.Header.{Entries}
use ps4rpi.Package.{Host}
use ps4rpi.Package.Frame.{Keeps, keeps_rules}
use ps4rpi.Package.Inspect.{
  digest_str, fetch_icon, fetch_param_sfo, fetch_header, fetch_entries, inspect,
}

module _ (P : Bytes → Type 0) (h : Host) (error_buf_size : ℕ) (mode : SslVerify) where
  digest_str-Keeps :
      (url : Bytes) (buf_size : ℕ) (digest : Bytes)
      → Keeps P (digest_str h error_buf_size mode url buf_size digest)
  unfolding digest_str
  digest_str-Keeps url buf_size digest = search keeps_rules

  fetch_icon-Keeps :
      (url : Bytes) (found : Entries) → Keeps P (fetch_icon h error_buf_size mode url found)
  unfolding fetch_icon
  fetch_icon-Keeps url found =
      elim (Bool-cases (ltb 0 found.icon0_png_offset && ltb 0 found.icon0_png_size)) [
        | inl there ↦ rw there (search keeps_rules)
        | inr not_there ↦ rw not_there (search keeps_rules)
      ]

  fetch_param_sfo-Keeps :
      (url : Bytes) (found : Entries) → Keeps P (fetch_param_sfo h error_buf_size mode url found)
  unfolding fetch_param_sfo
  fetch_param_sfo-Keeps url found = search keeps_rules

  fetch_header-Keeps :
      (url : Bytes) (piece_count : ℕ) → Keeps P (fetch_header h error_buf_size mode url piece_count)
  unfolding fetch_header
  fetch_header-Keeps url piece_count = search keeps_rules

  fetch_entries-Keeps : (url hdr : Bytes) → Keeps P (fetch_entries h error_buf_size mode url hdr)
  unfolding fetch_entries
  fetch_entries-Keeps url hdr = search keeps_rules

  pub inspect-Keeps :
      (url : Bytes) (piece_count : ℕ) → Keeps P (inspect h error_buf_size mode url piece_count)
  unfolding inspect
  inspect-Keeps url piece_count =
      search
        (
          keeps_rules, fetch_header-Keeps, fetch_entries-Keeps, fetch_param_sfo-Keeps,
          fetch_icon-Keeps, digest_str-Keeps,
        )
        depth 20 fits 4000
