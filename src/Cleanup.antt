-- ===== src/Cleanup.antt =====
-- RPI/server.c, `cleanup_temp_files`: the walk over the directory records that the kernel reports, and
-- which files it unlinks. Times are seconds.
pub mod Walk
mod Tests
use ps4rpi.Prelude.{
  ℕ, zero, suc, ◌+◌, ◌-◌, ◌*◌, Bool, true, false, not, ◌&&◌, ◌||◌, Option, none, some, List, [],
  ◌∷◌, ◌++◌, if◌then◌else◌, ◌==◌, ltb, leb, length, take, drop, get_or, Bytes, codes, str_eq,
}
use ps4rpi.Text.{starts_with, ends_with}
use ps4rpi.Sfo.{byte_at, le16_at, le32_at, cstring, zeros}

-- What the calls answer: the time of `timespec_now`, whether the directory opens, the bytes of each
-- `sceKernelGetdents` until it returns 0 or an error, and the time of access by `sceKernelStat`.
pub record Directory : Type 0 where
  pub now : Option ℕ
  pub opens : Bool
  pub chunks : List Bytes
  pub stat : Bytes → Option ℕ

-- offsetof(struct dirent, d_name), sizeof(buf), and CLEANUP_DAY_COUNT in seconds
abbrev pub name_offset : ℕ
name_offset = 12

abbrev pub buf_size : ℕ
buf_size = 8192

abbrev pub cleanup_age : ℕ
cleanup_age = 3 * 24 * 60 * 60

abbrev pub full_path_of : (work_dir name : Bytes) → Bytes
full_path_of work_dir name = take 1023 (work_dir ++ (b'/' ∷ name))

unfoldable pub is_temp : Bytes → Bool
is_temp name =
    starts_with name (codes "tmp_")
    && (ends_with name (codes ".json")
        || ends_with name (codes ".sfo")
        || ends_with name (codes ".png"))

-- how the walk ends: at the end of the records, at an error, or at a read outside the buffer
pub data Ending : Type 0 where
  finished stopped faulted : Ending

-- the files unlinked, in order
pub record Walked : Type 0 where
  pub unlinked : List Bytes
  pub ending : Ending

-- what the loop does at one record
pub data Visit : Type 0 where
  skip abort fault : Visit
  remove : Bytes → Visit

module _ (stat : Bytes → Option ℕ) (work_dir : Bytes) (now : ℕ) where
  check_age : Bytes → Option ℕ → Visit
  check_age path none = abort
  check_age path (some atime) =
      if leb atime now && leb cleanup_age (now - atime) then remove path else skip

  -- `d_type` 8 is a regular file
  visit_name : (type : ℕ) → Option Bytes → Visit
  unfolding check_age
  visit_name type none = fault
  visit_name type (some name) =
      if str_eq name (codes ".") || str_eq name (codes "..") || not (type == 8)
      then skip
      else if is_temp name
      then check_age (full_path_of work_dir name) (stat (full_path_of work_dir name))
      else skip

  -- the record at an offset, as RPI/dirent.h lays it out: a word that is not used, d_ino, for which
  -- d_fileno is another name, d_reclen, d_type, d_namlen, d_name
  visit : (buf : Bytes) → (offset : ℕ) → Visit
  unfolding visit_name
  visit buf offset =
      if le32_at buf (offset + 4) == 0
      then skip
      else visit_name (byte_at buf (offset + 10)) (cstring (drop (offset + name_offset) buf))

  after : Visit → Walked → Walked
  after skip rest = rest
  after abort rest = record { unlinked = []; ending = stopped }
  after fault rest = record { unlinked = []; ending = faulted }
  after (remove path) rest = record { unlinked = path ∷ rest.unlinked; ending = rest.ending }

  -- the records of one call, from an offset
  unfoldable pub walk : (fuel : ℕ) → (buf : Bytes) → (dent_size offset : ℕ) → Walked
  unfolding visit after
  walk zero buf dent_size offset = record { unlinked = []; ending = finished }
  walk (suc fuel) buf dent_size offset =
      let reclen = le16_at buf (offset + 8) in
      let rest = walk fuel buf dent_size (offset + reclen) in
      if leb (offset + name_offset) dent_size
        && not (ltb reclen name_offset || ltb dent_size (offset + reclen))
      then after (visit buf offset) rest
      else record { unlinked = []; ending = finished }

  unlinked_after : Ending → Walked → List Bytes
  unlinked_after finished later = later.unlinked
  unlinked_after _ later = []

  and_then : Walked → Walked → Walked
  unfolding unlinked_after
  and_then w later = record {
    unlinked = w.unlinked ++ unlinked_after w.ending later;
    ending = elim w.ending [ finished ↦ later.ending | e ↦ e ];
  }

  -- the buffer is zeroed before each call
  walk_chunks : List Bytes → Walked
  unfolding walk and_then
  walk_chunks [] = record { unlinked = []; ending = finished }
  walk_chunks (chunk ∷ chunks) =
      let buf = chunk ++ zeros (buf_size - length chunk) in
      let later = walk_chunks chunks in and_then (walk (length chunk) buf (length chunk) 0) later

cleanup_at : Directory → Bytes → Option ℕ → List Bytes
unfolding walk_chunks
cleanup_at d work_dir none = []
cleanup_at d work_dir (some now) =
    if d.opens then (walk_chunks d.stat work_dir now d.chunks).unlinked else []

-- the files unlinked
unfoldable pub cleanup_temp_files : Directory → (work_dir : Bytes) → List Bytes
unfolding cleanup_at
cleanup_temp_files d work_dir = cleanup_at d work_dir d.now
