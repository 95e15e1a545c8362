-- ===== src/ContentId.antt =====
-- RPI/pkg.c, `pkg_parse_content_id`, with the sizes and `struct pkg_content_info` of RPI/pkg.h.
-- A content id is <service id>-<label>, the service id being <publisher>-<title>_<version>.
-- The children prove what is accepted and what is read out.
pub mod Sound
pub mod Complete
mod Tests
use ps4rpi.Prelude.{
  ℕ, ◌+◌, ◌-◌, Bool, Option, none, some, List, [], ◌∷◌, ◌==◌, length, take, Bytes, strchr, strrchr,
  next_char, strlcpy, ◌>>=◌, ◌>>◌, guard,
}

abbrev pub title_id_size : ℕ
title_id_size = 0x9

abbrev pub service_id_size : ℕ
service_id_size = 0x13

abbrev pub content_id_size : ℕ
content_id_size = 0x24

abbrev pub label_size : ℕ
label_size = 0x10

-- the strings in the four buffers
pub record ContentInfo : Type 0 where
  pub content_id : Bytes
  pub service_id : Bytes
  pub title_id : Bytes
  pub label : Bytes

-- `none` as the argument is a null pointer, and as the result is the return of false. The caller's
-- structure is written only on success.
unfoldable pub parse_content_id : Option Bytes → Option ContentInfo
parse_content_id none = none
parse_content_id (some s) = do
  guard (length s == content_id_size)
  p1 ← strchr s b'-'
  p2 ← strchr (next_char p1) b'-'
  guard (length s - length p2 == service_id_size)
  let service_id = strlcpy s (service_id_size + 1)
  guard (length service_id == service_id_size)
  p2' ← strchr (next_char p1) b'_'
  let title_id = strlcpy (next_char p1) (title_id_size + 1)
  guard (length title_id == title_id_size)
  p3 ← strrchr s b'-'
  let label = strlcpy (next_char p3) (label_size + 1)
  guard (length label == label_size)
  some (record {
    content_id = strlcpy s (content_id_size + 1);
    service_id = service_id;
    title_id = title_id;
    label = label;
  })
