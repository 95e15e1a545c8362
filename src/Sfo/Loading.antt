-- ===== src/Sfo/Loading.antt =====
-- What a loaded file has.
use ps4rpi.Prelude.{
  ℕ, zero, suc, ◌+◌, ◌-◌, ◌*◌, ◌≤◌, ◌≡◌, inl, inr, refl, ap, Bool, not, ◌||◌, Bool-cases, Option,
  none, some, List, ltb, length, length-append, length-take, length-drop, drop, All, Bytes, arith,
}
use mathlib.Core.Path.{subst}
use ps4rpi.Sfo.{
  le32_at, Entry, Outcome, fault, failed, done, zeros, bytes_at, entry_at, sizeof_sfo_header,
  sizeof_sfo_table_entry, with_value, with_key, load_entry, append, load_entries,
  sfo_load_from_memory,
}

length-zeros : (n : ℕ) → length (zeros n) ≡ n
unfolding zeros
length-zeros zero = refl
length-zeros (suc n) = omega (arith, length-zeros n)

length-bytes_at :
    (d : Bytes) (offset size : ℕ) {stored : Bytes}
    → bytes_at d offset size ≡ some stored
    → length stored ≡ size
unfolding bytes_at
length-bytes_at d offset size {stored} e =
    let len = length-take size (drop offset d) in let left = length-drop offset d in ground arith

-- An entry as the program may use it: the value fills its area, and the size is within that.
pub record IsEntry (e : Entry) : Type 0 where
  pub within_area : e.size ≤ e.area
  pub filled : length e.value ≡ e.area

-- What is done, if anything, has the property.
abbrev pub Yields : {A : Type 0} → (A → Type 0) → Outcome A → Type 0
Yields P fault = Unit
Yields P failed = Unit
Yields P (done a) = P a

Yields-done : {A : Type 0} (P : A → Type 0) (o : Outcome A) {a : A} → Yields P o → o ≡ done a → P a
Yields-done P o h e = subst (λ x. Yields P x) e h

-- `count` entries, each of them usable
abbrev pub AreEntries : ℕ → List Entry → Type 0
AreEntries count es = (length es ≡ count) × All IsEntry es

module _ (malloc : ℕ → ℕ → Bool) (d : Bytes) where
  with_value-Yields :
      (i : ℕ) (key : Bytes) (o : Option Bytes)
      → le32_at d (entry_at i + 4) ≤ le32_at d (entry_at i + 8)
      → bytes_at d (le32_at d 12 + le32_at d (entry_at i + 12)) (le32_at d (entry_at i + 4)) ≡ o
      → Yields IsEntry (with_value malloc d i key o)
  unfolding with_value
  with_value-Yields i key none h same = tt
  with_value-Yields i key (some stored) h same =
      let size = le32_at d (entry_at i + 4) in
      let area = le32_at d (entry_at i + 8) in
      let len = length-bytes_at d _ size same in
      record {
        within_area = h;
        filled =
            omega (
              arith,
              h,
              len,
              length-append stored (zeros (area - size)),
              length-zeros (area - size),
            );
      }

  with_key-Yields :
      (i : ℕ) (o : Option Bytes)
      → le32_at d (entry_at i + 4) ≤ le32_at d (entry_at i + 8)
      → Yields IsEntry (with_key malloc d i o)
  unfolding with_key
  with_key-Yields i none h = tt
  with_key-Yields i (some key) h =
      elim (Bool-cases
        (not (malloc i (length key + 1)) || not (malloc i (le32_at d (entry_at i + 8))))) [
          | inl full ↦ rw full tt
          | inr room ↦ rw room (with_value-Yields i key _ h refl)
        ]

  load_entry-Yields : (i : ℕ) → Yields IsEntry (load_entry malloc d i)
  unfolding load_entry
  load_entry-Yields i = elim (Bool-cases (not (malloc i 56))) [
    | inl full ↦ rw full tt
    | inr room ↦ elim (Bool-cases (ltb (le32_at d (entry_at i + 8)) (le32_at d (entry_at i + 4)))) [
      | inl odd ↦ rw (room, odd) tt
      | inr fine ↦ rw (room, fine) (with_key-Yields i _ (ground arith))
    ]
  ]

  append-Yields :
      (n : ℕ) (o : Outcome Entry) (rest : Outcome (List Entry))
      → Yields IsEntry o
      → Yields (AreEntries n) rest
      → Yields (AreEntries (suc n)) (append malloc d o rest)
  unfolding append
  append-Yields n fault rest h g = tt
  append-Yields n failed rest h g = tt
  append-Yields n (done e) fault h g = tt
  append-Yields n (done e) failed h g = tt
  append-Yields n (done e) (done es) h (count, all) = (ap suc count, (h, all))

  load_entries-Yields : (left i : ℕ) → Yields (AreEntries left) (load_entries malloc d left i)
  unfolding load_entries
  load_entries-Yields zero i = (refl, tt)
  load_entries-Yields (suc left) i =
      append-Yields left (load_entry malloc d i) (load_entries malloc d left (i + 1))
        (load_entry-Yields i) (load_entries-Yields left (i + 1))

  -- the tests before the loop
  loads :
      {es : List Entry}
      → sfo_load_from_memory malloc d ≡ done es
      → (load_entries malloc d (le32_at d 16) 0 ≡ done es)
        × (sizeof_sfo_header + le32_at d 16 * sizeof_sfo_table_entry ≤ length d)
  unfolding sfo_load_from_memory
  loads e = ground arith

  -- What `sfo_load_from_memory` loads has as many entries as the header counts, all of whose table
  -- lies in the file; each entry's value fills its area, and its size is within that.
  pub sfo_load_from_memory-AreEntries :
      {es : List Entry}
      → sfo_load_from_memory malloc d ≡ done es
      → AreEntries (le32_at d 16) es
        × (sizeof_sfo_header + le32_at d 16 * sizeof_sfo_table_entry ≤ length d)
  sfo_load_from_memory-AreEntries e =
      let (loop, table) = loads e in
      (Yields-done (AreEntries (le32_at d 16)) _ (load_entries-Yields (le32_at d 16) 0) loop, table)
