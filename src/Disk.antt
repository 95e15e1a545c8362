-- ===== src/Disk.antt =====
-- Files under their paths, for the functions that write and remove several: `unlink`, and a file put
-- in place of what was there. The program does not look at what `unlink` returns; it is taken to
-- succeed.
use ps4rpi.Prelude.{
  ◌≡◌, ◌≢◌, refl, ap, ◌∙◌, Bool, true, false, Bool-cases, inl, inr, Option, none, some,
  if◌then◌else◌, Bytes, str_eq, str_eq_iff,
}
use ps4rpi.Files.{Written}

abbrev pub Disk : Type 0
Disk = Bytes → Option Bytes

unfoldable pub unlink : Bytes → Disk → Disk
unlink path disk q = if str_eq path q then none else disk q

unfoldable pub put : Bytes → Bytes → Disk → Disk
put path content disk q = if str_eq path q then some content else disk q

-- `write_file_trunc`: nothing is there if the file did not open
unfoldable pub put_written : Bool → Bytes → Written → Disk → Disk
unfolding put
put_written true path w disk = put path w.bytes disk
put_written false path w disk = disk

str_eq_self : (p : Bytes) → str_eq p p ≡ true
str_eq_self p = (str_eq_iff p p).1 refl

pub str_eq_other : (p q : Bytes) → p ≢ q → str_eq p q ≡ false
str_eq_other p q other = elim (Bool-cases (str_eq p q)) [
  | inl same ↦ absurd (other ((str_eq_iff p q).0 same))
  | inr apart ↦ apart
]

pub unlink_self : (p : Bytes) (disk : Disk) → unlink p disk p ≡ none
unfolding unlink
unlink_self p disk = rw (str_eq_self p)

pub unlink_other : (p q : Bytes) (disk : Disk) → p ≢ q → unlink p disk q ≡ disk q
unfolding unlink
unlink_other p q disk other = rw (str_eq_other p q other)

pub put_self : (p content : Bytes) (disk : Disk) → put p content disk p ≡ some content
unfolding put
put_self p content disk = rw (str_eq_self p)

pub put_other : (p q content : Bytes) (disk : Disk) → p ≢ q → put p content disk q ≡ disk q
unfolding put
put_other p q content disk other = rw (str_eq_other p q other)

-- what is gone stays gone
pub unlink-none : (p q : Bytes) (disk : Disk) → disk q ≡ none → unlink p disk q ≡ none
unfolding unlink
unlink-none p q disk gone = elim (Bool-cases (str_eq p q)) [
  | inl same ↦ rw same
  | inr apart ↦ rw apart gone
]

pub put_written_other :
    (opens : Bool) (p q : Bytes) (w : Written) (disk : Disk)
    → p ≢ q
    → put_written opens p w disk q ≡ disk q
unfolding put_written
put_written_other true p q w disk other = put_other p q w.bytes disk other
put_written_other false p q w disk other = refl

pub put_written_self :
    (opens : Bool) (path content : Bytes) (w : Written) (disk : Disk)
    → opens ≡ true
    → w.bytes ≡ content
    → put_written opens path w disk path ≡ some content
unfolding put_written
put_written_self true path content w disk opened whole = put_self path w.bytes disk ∙ ap some whole
put_written_self false path content w disk opened whole = cc

pub ne_of_str_eq : (p q : Bytes) → str_eq p q ≡ false → p ≢ q
ne_of_str_eq p q apart same = let equal = (str_eq_iff p q).1 same in cc
