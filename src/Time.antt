-- ===== src/Time.antt =====
-- RPI/util.c, `timespec_now`, `timespec_sub`, `timespec_compare`. Times are after the epoch, so that
-- neither part is negative.
pub mod Total
mod Tests
use ps4rpi.Prelude.{
  ℕ, ◌+◌, ◌-◌, ◌*◌, ◌%◌, ◌^◌, Bool, ◌&&◌, ◌||◌, Option, none, some, if◌then◌else◌, ◌==◌, ltb, leb,
}
use ps4rpi.Console.{minus_one}

-- `struct timespec`
pub record Timespec : Type 0 where
  pub tv_sec : ℕ
  pub tv_nsec : ℕ

-- NSEC_PER_SEC
abbrev pub nsec_per_sec : ℕ
nsec_per_sec = 1000000000

-- seconds and microseconds of `sceKernelGettimeofday`; none is an error, and the return of null
unfoldable pub timespec_now : Option (ℕ × ℕ) → Option Timespec
timespec_now none = none
timespec_now (some (sec, usec)) = some (record { tv_sec = sec; tv_nsec = usec * 1000 })

unfoldable pub timespec_sub : Timespec → Timespec → Timespec
timespec_sub a b =
    if ltb a.tv_sec b.tv_sec || (a.tv_sec == b.tv_sec && leb a.tv_nsec b.tv_nsec)
    then record { tv_sec = 0; tv_nsec = 0 }
    else if ltb a.tv_nsec b.tv_nsec
    then record { tv_sec = a.tv_sec - b.tv_sec - 1; tv_nsec = a.tv_nsec + nsec_per_sec - b.tv_nsec }
    else record { tv_sec = a.tv_sec - b.tv_sec; tv_nsec = a.tv_nsec - b.tv_nsec }

-- an int
unfoldable pub timespec_compare : Timespec → Timespec → ℕ
timespec_compare a b =
    if ltb a.tv_sec b.tv_sec
    then minus_one
    else if ltb b.tv_sec a.tv_sec
    then 1
    else (a.tv_nsec + 2 ^ 32 - b.tv_nsec) % 2 ^ 32
