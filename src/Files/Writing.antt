-- ===== src/Files/Writing.antt =====
-- What is written of a file, in how many calls soever.
use ps4rpi.Prelude.{
  ℕ, zero, suc, ◌+◌, ◌≤◌, ◌<◌, ◌≡◌, ◌↔◌, inl, inr, refl, ap, true, false, Bool-cases, ◌==◌, ==_iff,
  length, take, drop, take_all, length-take, length-drop, Bytes, arith,
}
use ps4rpi.Files.{Sink, write_from, write_file}

module _ (f : Sink) where
  -- `write` takes no more bytes than it is given.
  abbrev pub IsHonest : Type 0
  IsHonest = (offset : ℕ) (given : Bytes) → f.write offset given ≤ length given

  -- `write` takes at least one byte where it is given any.
  abbrev pub IsLive : Type 0
  IsLive = (offset : ℕ) (given : Bytes) → 0 < length given → 0 < f.write offset given

  write_from-le :
      IsHonest
      → (fuel total : ℕ) (given : Bytes) → write_from f fuel total given ≤ total + length given
  unfolding write_from
  write_from-le honest zero total given = omega arith
  write_from-le honest (suc fuel) total given =
      let n = f.write total given in
      let most = honest total given in
      let later = write_from-le honest fuel (total + n) (drop n given) in
      let left = length-drop n given in ground arith

  write_from_all :
      IsHonest
      → IsLive
      → (fuel total : ℕ) (given : Bytes) → length given ≤ fuel
      → write_from f fuel total given ≡ total + length given
  unfolding write_from
  write_from_all honest live zero total given enough = omega (arith, enough)
  write_from_all honest live (suc fuel) total given enough = elim (Bool-cases (length given == 0)) [
    | inl empty ↦ rw empty (ground arith)
    | inr more ↦
        let n = f.write total given in
        let most = honest total given in
        let some_left : 0 < length given = ground arith in
        let least = live total given some_left in
        let left = length-drop n given in
        let later =
          write_from_all honest live fuel (total + n) (drop n given)
            (omega (arith, least, left, enough, some_left)) in
        let moves : (n == 0) ≡ false = ground arith in
        rw (more, moves) (omega (arith, later, left, most))
  ]

  prefix_all :
      (content : Bytes) (total : ℕ)
      → total ≤ length content
      → take total content ≡ content
      → total ≡ length content
  prefix_all content total most e =
      let len : length (take total content) ≡ length content = ap length e in
      omega (arith, len, length-take total content, most)

  -- Where no call of `write` takes more bytes than it is given, `write_file` returns true exactly
  -- when the file opens and what was written is all of the data.
  pub write_file_iff :
      (content : Bytes)
      → IsHonest
      → ((write_file f content).status ≡ true)
        ↔ ((f.opens ≡ true) × ((write_file f content).bytes ≡ content))
  unfolding write_file
  write_file_iff content honest = elim (Bool-cases f.opens) [
    | inr closed ↦ rw closed (ground arith)
    | inl opens ↦
        let total = write_from f (length content) 0 content in
        let most : total ≤ length content =
          omega (arith, write_from-le honest (length content) 0 content) in
        rw opens (
          (λ e.
              (refl, take_all total content (omega (arith, (==_iff total (length content)).0 e)))),
          (λ (_, whole). (==_iff total (length content)).1 (prefix_all content total most whole)),
        )
  ]

  -- Where the file opens and every call of `write` takes at least one of the bytes given, and no
  -- more than those, all of the data is written.
  pub write_file_all :
      (content : Bytes)
      → IsHonest
      → IsLive
      → f.opens ≡ true
      → write_file f content ≡ record { status = true; bytes = content }
  unfolding write_file
  write_file_all content honest live opens =
      let all : write_from f (length content) 0 content ≡ length content =
        omega (arith, write_from_all honest live (length content) 0 content (omega arith)) in
      let same = (==_iff (length content) (length content)).1 refl in
      rw (opens, all, same, take_all (length content) content (omega arith)) refl
