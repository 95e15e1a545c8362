-- ===== src/Time/Total.antt =====
-- Times as one number of nanoseconds.
use ps4rpi.Prelude.{ℕ, ◌+◌, ◌-◌, ◌*◌, ◌<◌, ◌≡◌, ◌↔◌, true, arith}
use ps4rpi.Console.{is_negative}
use ps4rpi.Time.{Timespec, nsec_per_sec, timespec_sub, timespec_compare}

-- less than a second in the nanoseconds
abbrev pub IsNormal : Timespec → Type 0
IsNormal t = t.tv_nsec < nsec_per_sec

abbrev pub total : Timespec → ℕ
total t = t.tv_sec * nsec_per_sec + t.tv_nsec

-- The difference of two normal times is normal, and it is that of their nanoseconds in all, or 0
-- where the second is the later.
pub total-timespec_sub :
    (a b : Timespec)
    → IsNormal a
    → IsNormal b
    → (total (timespec_sub a b) ≡ total a - total b) × IsNormal (timespec_sub a b)
unfolding timespec_sub
total-timespec_sub a b h g = ground arith

-- For two normal times, `timespec_compare` is negative exactly where the first is earlier, and 0
-- exactly where they are the same.
pub timespec_compare_lem :
    (a b : Timespec)
    → IsNormal a
    → IsNormal b
    → ((is_negative (timespec_compare a b) ≡ true) ↔ (total a < total b))
      × ((timespec_compare a b ≡ 0) ↔ (total a ≡ total b))
unfolding timespec_compare
timespec_compare_lem a b h g = ground arith
