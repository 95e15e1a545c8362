-- ===== src/Sfo.antt =====
-- RPI/sfo.c, system file objects in memory: `sfo_load_from_memory` and `sfo_find_entry`. A file is the
-- list of its bytes; a read outside of it is a fault, since what lies there is not known. LE16 and
-- LE32 of RPI/common.h are the identity on the console.
pub mod Loading
pub mod File
mod Tests
use ps4rpi.Prelude.{
  ℕ, zero, suc, ◌+◌, ◌-◌, ◌*◌, ◌≤◌, Bool, true, false, not, ◌||◌, Option, none, some, List, [], ◌∷◌,
  ◌++◌, if◌then◌else◌, ◌==◌, ltb, leb, length, take, drop, get_or, Bytes, str_eq,
}

-- little-endian numbers at an offset
abbrev pub byte_at : Bytes → ℕ → ℕ
byte_at data_bytes offset = get_or data_bytes offset 0

abbrev pub le16_at : Bytes → ℕ → ℕ
le16_at d offset = byte_at d offset + 256 * byte_at d (offset + 1)

abbrev pub le32_at : Bytes → ℕ → ℕ
le32_at d offset = le16_at d offset + 65536 * le16_at d (offset + 2)

-- `struct sfo_entry`, without the links
pub record Entry : Type 0 where
  pub key : Bytes
  pub size : ℕ
  pub area : ℕ
  pub value : Bytes
  pub format : ℕ

pub data Outcome (A : Type 0) : Type 0 where
  -- a read outside the file
  fault : Outcome A
  failed : Outcome A
  done : A → Outcome A

-- the string up to its terminator; none where there is none
unfoldable pub cstring : Bytes → Option Bytes
cstring [] = none
cstring (c ∷ s) =
    let rest = cstring s in
    if c == 0 then some [] else (elim rest [ none ↦ none | some t ↦ some (c ∷ t) ])

unfoldable pub zeros : ℕ → Bytes
zeros zero = []
zeros (suc n) = 0 ∷ zeros n

-- `memcpy` of some bytes at an offset
unfoldable pub bytes_at : Bytes → (offset size : ℕ) → Option Bytes
bytes_at d offset size =
    if size == 0
    then some []
    else if leb (offset + size) (length d)
    then some (take size (drop offset d))
    else none

-- sizeof(struct sfo_header), sizeof(struct sfo_table_entry), sizeof(struct sfo_entry)
abbrev pub sizeof_sfo_header : ℕ
sizeof_sfo_header = 0x14

abbrev pub sizeof_sfo_table_entry : ℕ
sizeof_sfo_table_entry = 0x10

abbrev sizeof_entry : ℕ
sizeof_entry = 56

-- SFO_MAGIC
abbrev pub sfo_magic : Bytes
sfo_magic = 0 ∷ b'P' ∷ b'S' ∷ b'F' ∷ []

-- where the entry of a number is in the table, and its fields
abbrev pub entry_at : ℕ → ℕ
entry_at i = sizeof_sfo_header + i * sizeof_sfo_table_entry

abbrev pub key_of : Bytes → ℕ → Bytes
key_of d i = drop (le32_at d 8 + le16_at d (entry_at i)) d

-- `malloc` may have the memory or not, also by the number of the entry
module _ (malloc : ℕ → ℕ → Bool) (d : Bytes) where
  -- from the copy of the value on
  with_value : (i : ℕ) → (key : Bytes) → Option Bytes → Outcome Entry
  with_value i key none = fault
  with_value i key (some stored) =
      let size = le32_at d (entry_at i + 4) in
      let area = le32_at d (entry_at i + 8) in
      done (record {
        key = key;
        size = size;
        area = area;
        value = stored ++ zeros (area - size);
        format = le16_at d (entry_at i + 2);
      })

  -- from the copy of the key on
  with_key : (i : ℕ) → Option Bytes → Outcome Entry
  unfolding with_value bytes_at
  with_key i none = fault
  with_key i (some key) =
      if not (malloc i (length key + 1)) || not (malloc i (le32_at d (entry_at i + 8)))
      then failed
      else with_value i key
          (bytes_at d (le32_at d 12 + le32_at d (entry_at i + 12)) (le32_at d (entry_at i + 4)))

  -- the body of the loop
  load_entry : ℕ → Outcome Entry
  unfolding with_key cstring
  load_entry i =
      if not (malloc i sizeof_entry)
      then failed
      else if ltb (le32_at d (entry_at i + 8)) (le32_at d (entry_at i + 4))
      then failed
      else with_key i (cstring (key_of d i))

  append : Outcome Entry → Outcome (List Entry) → Outcome (List Entry)
  append fault rest = fault
  append failed rest = failed
  append (done e) fault = fault
  append (done e) failed = failed
  append (done e) (done es) = done (e ∷ es)

  -- the loop, with the entries still to read and the number of the next
  load_entries : (left i : ℕ) → Outcome (List Entry)
  unfolding load_entry append
  load_entries zero i = done []
  load_entries (suc left) i = let rest = load_entries left (i + 1) in append (load_entry i) rest

  -- what is stored to `sfo->entries` on success
  unfoldable pub sfo_load_from_memory : Outcome (List Entry)
  unfolding load_entries
  sfo_load_from_memory =
      if ltb (length d) sizeof_sfo_header
      then failed
      else if not (str_eq (take 4 d) sfo_magic)
      then failed
      else if ltb (length d) (sizeof_sfo_header + le32_at d 16 * sizeof_sfo_table_entry)
      then failed
      else load_entries (le32_at d 16) 0

unfoldable pub sfo_find_entry : List Entry → Bytes → Option Entry
sfo_find_entry [] key = none
sfo_find_entry (e ∷ es) key = if str_eq e.key key then some e else sfo_find_entry es key
