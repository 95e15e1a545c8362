-- ===== src/Static.antt =====
-- RPI/server.c, `handle_static`: the files of the working directory, which the download service
-- fetches back from the program.
pub mod Confined
mod Tests
use ps4rpi.Prelude.{
  ℕ, Bool, true, false, not, ◌||◌, Option, none, some, [], ◌∷◌, ◌++◌, if◌then◌else◌, ◌==◌, take,
  drop, Bytes, codes, strstr,
}
use ps4rpi.Text.{starts_with, ends_with_nocase}
use ps4rpi.Http.{JsonEscape}
use ps4rpi.Response.{Reply, Write, kick_error}

-- what `stat` says of a path
pub data Stat : Type 0 where
  missing regular irregular : Stat

-- The calls on the file system and on the sandbird library: `sb_send_file` returns 0 or an error,
-- which `sb_error_str` has a text for.
pub record Files : Type 0 where
  pub stat : Bytes → Stat
  pub send_file : Bytes → ℕ
  pub error_str : ℕ → Bytes

-- what the handler returns and sends
pub record Served : Type 0 where
  pub returned : Bool
  pub sent : Reply

abbrev is_found : Option ℕ → Bool
is_found none = false
is_found (some i) = true

-- the buffer has 1024 bytes
abbrev pub real_path_of : (work_dir path : Bytes) → Bytes
real_path_of work_dir path = take 1023 (work_dir ++ (b'/' ∷ path))

unfoldable pub content_type_of : Bytes → Bytes
content_type_of real_path =
    if ends_with_nocase real_path (codes ".json")
    then codes "application/json"
    else if ends_with_nocase real_path (codes ".png")
    then codes "image/png"
    else codes "application/octet-stream"

-- the calls on the stream for a file that is there
unfoldable pub file_reply : Bytes → Reply
unfolding content_type_of
file_reply real_path =
    Write.status 200 (codes "OK")
    ∷ Write.header (codes "Connection") (codes "close")
    ∷ Write.header (codes "Content-Type") (content_type_of real_path)
    ∷ Write.file real_path
    ∷ []

module _ (np_escape : JsonEscape) (http_initialized : Bool) (files : Files) (work_dir : Bytes) where
  abbrev answered : ℕ → (title error : Bytes) → Served
  answered code title error = record {
    returned = true;
    sent = kick_error np_escape http_initialized code title error;
  }

  send : Bytes → ℕ → Served
  unfolding file_reply
  send real_path ret =
      if ret == 0 then record { returned = true; sent = file_reply real_path } else record {
        returned = false;
        sent =
            file_reply real_path
            ++ kick_error np_escape http_initialized 500 (codes "Internal server error")
                (files.error_str ret);
      }

  serve : Bytes → Stat → Served
  unfolding send
  serve real_path Stat.missing = answered 404 (codes "Not found") (codes "Page not found")
  serve real_path Stat.irregular = answered 403 (codes "Forbidden") (codes "Access is denied")
  serve real_path Stat.regular = send real_path (files.send_file real_path)

  unfoldable pub handle_static : Bytes → Served
  unfolding serve
  handle_static path =
      if not (starts_with path (codes "/static/"))
        || is_found (strstr path (codes ":/"))
        || is_found (strstr path (codes ".."))
      then answered 400 (codes "Bad request") (codes "Invalid path")
      else let real_path = real_path_of work_dir (drop 8 path) in
        serve real_path (files.stat real_path)
