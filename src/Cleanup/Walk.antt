-- ===== src/Cleanup/Walk.antt =====
-- The walk ends, and unlinks old temporary files only.
use ps4rpi.Prelude.{
  ℕ, zero, suc, take, ◌*◌, ◌+◌, ◌-◌, ◌≤◌, ◌≡◌, ◌⊎◌, inl, inr, refl, sym, ap, true, false, not, ◌&&◌,
  ◌||◌, Bool-cases, Option, Option-cases, none, some, List, [], ◌∷◌, ◌++◌, ◌==◌, ltb, leb, length,
  All, All-append, Bytes, codes, str_eq, arith,
}
use mathlib.Core.Path.{subst}
use ps4rpi.Text.{ends_with}
use ps4rpi.Text.Affix.{starts_with_iff, ends_with_iff}
use ps4rpi.Sfo.{le16_at, le32_at}
use ps4rpi.Cleanup.{
  Directory, cleanup_age, full_path_of, is_temp, Ending, finished, stopped, faulted, Walked, Visit,
  skip, abort, fault, remove, check_age, visit_name, visit, after, walk, unlinked_after, and_then,
  walk_chunks, cleanup_at, cleanup_temp_files,
}

module _ (stat : Bytes → Option ℕ) (work_dir : Bytes) (now : ℕ) where
  -- The path is that of a temporary file of the program, not read for three days.
  pub record IsOldTemp (path : Bytes) : Type 0 where
    pub name : Bytes
    pub in_work_dir : path ≡ take 1023 (work_dir ++ (b'/' ∷ name))
    pub prefix : (rest : Bytes) × (name ≡ codes "tmp_" ++ rest)
    pub suffix :
        ((front : Bytes) × (name ≡ front ++ codes ".json"))
        ⊎ ((front : Bytes) × (name ≡ front ++ codes ".sfo"))
        ⊎ ((front : Bytes) × (name ≡ front ++ codes ".png"))
    pub atime : ℕ
    pub accessed : stat path ≡ some atime
    pub old : atime + 3 * 24 * 60 * 60 ≤ now

  -- what is removed has the property
  abbrev Removes : Visit → Type 0
  Removes (remove path) = IsOldTemp path
  Removes _ = Unit

  suffixes :
      (name : Bytes)
      → ends_with name (codes ".json")
          || ends_with name (codes ".sfo")
          || ends_with name (codes ".png")
        ≡ true
      → ((front : Bytes) × (name ≡ front ++ codes ".json"))
        ⊎ ((front : Bytes) × (name ≡ front ++ codes ".sfo"))
        ⊎ ((front : Bytes) × (name ≡ front ++ codes ".png"))
  suffixes name h = elim (Bool-cases (ends_with name (codes ".json"))) [
    | inl json ↦ inl ((ends_with_iff name (codes ".json")).0 json)
    | inr not_json ↦ elim (Bool-cases (ends_with name (codes ".sfo"))) [
      | inl sfo ↦ inr (inl ((ends_with_iff name (codes ".sfo")).0 sfo))
      | inr not_sfo ↦ inr (inr ((ends_with_iff name (codes ".png")).0 (ground arith)))
    ]
  ]

  check_age-Removes :
      (name : Bytes) (o : Option ℕ)
      → is_temp name ≡ true
      → stat (full_path_of work_dir name) ≡ o
      → Removes (check_age stat work_dir now (full_path_of work_dir name) o)
  unfolding check_age is_temp
  check_age-Removes name none temp same = tt
  check_age-Removes name (some atime) temp same =
      elim (Bool-cases (leb atime now && leb cleanup_age (now - atime))) [
        | inl old ↦ rw old (record {
          name = name;
          in_work_dir = refl;
          prefix = (starts_with_iff name (codes "tmp_")).0 (ground arith);
          suffix = suffixes name (ground arith);
          atime = atime;
          accessed = same;
          old = ground arith;
        })
        | inr young ↦ rw young tt
      ]

  visit_name-Removes : (type : ℕ) (o : Option Bytes) → Removes (visit_name stat work_dir now type o)
  unfolding visit_name
  visit_name-Removes type none = tt
  visit_name-Removes type (some name) =
      elim (Bool-cases (str_eq name (codes ".") || str_eq name (codes "..") || not (type == 8))) [
        | inl other ↦ rw other tt
        | inr file ↦ elim (Bool-cases (is_temp name)) [
          | inr kept ↦ rw (file, kept) tt
          | inl temp ↦
              rw (file, temp) (check_age-Removes name (stat (full_path_of work_dir name)) temp refl)
        ]
      ]

  visit-Removes : (buf : Bytes) (offset : ℕ) → Removes (visit stat work_dir now buf offset)
  unfolding visit
  visit-Removes buf offset = elim (Bool-cases (le32_at buf (offset + 4) == 0)) [
    | inl deleted ↦ rw deleted tt
    | inr there ↦ rw there (visit_name-Removes _ _)
  ]

  after-All :
      (v : Visit) (rest : Walked)
      → Removes v
      → All IsOldTemp rest.unlinked
      → All IsOldTemp (after stat work_dir now v rest).unlinked
  unfolding after
  after-All skip rest h all = all
  after-All abort rest h all = tt
  after-All fault rest h all = tt
  after-All (remove path) rest h all = (h, all)

  walk-All :
      (fuel : ℕ) (buf : Bytes) (dent_size offset : ℕ)
      → All IsOldTemp (walk stat work_dir now fuel buf dent_size offset).unlinked
  unfolding walk
  walk-All zero buf dent_size offset = tt
  walk-All (suc fuel) buf dent_size offset =
      let reclen = le16_at buf (offset + 8) in
      elim (Bool-cases
        (leb (offset + 12) dent_size && not (ltb reclen 12 || ltb dent_size (offset + reclen)))) [
          | inl record_fits ↦ rw record_fits (
              after-All (visit stat work_dir now buf offset) _ (visit-Removes buf offset)
                (walk-All fuel buf dent_size (offset + reclen)))
          | inr done_here ↦ rw done_here tt
        ]

  unlinked_after-All :
      (e : Ending) (later : Walked)
      → All IsOldTemp later.unlinked
      → All IsOldTemp (unlinked_after stat work_dir now e later)
  unfolding unlinked_after
  unlinked_after-All finished later g = g
  unlinked_after-All stopped later g = tt
  unlinked_after-All faulted later g = tt

  walk_chunks-All :
      (chunks : List Bytes) → All IsOldTemp (walk_chunks stat work_dir now chunks).unlinked
  unfolding walk_chunks and_then
  walk_chunks-All [] = tt
  walk_chunks-All (chunk ∷ chunks) =
      All-append IsOldTemp _ _ (walk-All (length chunk) _ (length chunk) 0)
        (unlinked_after-All _ (walk_chunks stat work_dir now chunks) (walk_chunks-All chunks))

  -- the records end before the buffer does, and each takes at least the bytes before its name
  walk-stops :
      (fuel : ℕ) (buf : Bytes) (dent_size offset : ℕ)
      → dent_size ≤ offset
      → walk stat work_dir now fuel buf dent_size offset
        ≡ record { unlinked = []; ending = finished }
  unfolding walk
  walk-stops zero buf dent_size offset h = refl
  walk-stops (suc fuel) buf dent_size offset h =
      let past : leb (offset + 12) dent_size ≡ false = ground arith in rw past refl

  -- Fuel for one step a byte is enough for the walk over the records of one call: with any more, the
  -- same files are unlinked and the walk ends the same way.
  pub walk_enough :
      (fuel extra : ℕ) (buf : Bytes) (dent_size offset : ℕ)
      → dent_size ≤ offset + fuel
      → walk stat work_dir now (fuel + extra) buf dent_size offset
        ≡ walk stat work_dir now fuel buf dent_size offset
  unfolding walk
  walk_enough zero extra buf dent_size offset h =
      walk-stops (0 + extra) buf dent_size offset (omega (arith, h))
  walk_enough (suc fuel) extra buf dent_size offset h =
      let count : suc fuel + extra ≡ suc (fuel + extra) = omega arith in
      let reclen = le16_at buf (offset + 8) in
      elim (Bool-cases
        (leb (offset + 12) dent_size && not (ltb reclen 12 || ltb dent_size (offset + reclen)))) [
          | inl record_fits ↦
              let long : 12 ≤ reclen = ground arith in
              let same =
                walk_enough fuel extra buf dent_size (offset + reclen) (omega (arith, h, long)) in
              rw (count, record_fits)
                (ap (after stat work_dir now (visit stat work_dir now buf offset)) same)
          | inr done_here ↦ rw (count, done_here) refl
        ]

module _ (d : Directory) (work_dir : Bytes) where
  cleaned : (now : ℕ) → All (IsOldTemp d.stat work_dir now) (cleanup_at d work_dir (some now))
  unfolding cleanup_at
  cleaned now = elim (Bool-cases d.opens) [
    | inl opens ↦ simp opens (walk_chunks-All d.stat work_dir now d.chunks)
    | inr closed ↦ simp closed tt
  ]

  nothing : d.now ≡ none → cleanup_at d work_dir d.now ≡ []
  unfolding cleanup_at
  nothing unknown = ap (cleanup_at d work_dir) unknown

  -- Every file that the clean-up unlinks lies in the working directory, at a path cut to 1023 bytes,
  -- under a name that begins with tmp_ and ends with .json, .sfo or .png, and was last read at least three days before the time
  -- that the clock told. Nothing is unlinked where the clock does not tell the time.
  pub cleanup_temp_files-All :
      ((d.now ≡ none) × (cleanup_temp_files d work_dir ≡ []))
      ⊎ ((now : ℕ) × (d.now ≡ some now)
          × All (IsOldTemp d.stat work_dir now) (cleanup_temp_files d work_dir))
  unfolding cleanup_temp_files
  cleanup_temp_files-All = elim (Option-cases d.now) [
    | inl unknown ↦ inl (unknown, nothing unknown)
    | inr (now, known) ↦ inr (
      now,
      known,
      subst (λ o. All (IsOldTemp d.stat work_dir now) (cleanup_at d work_dir o)) (sym known)
          (cleaned now),
    )
  ]
