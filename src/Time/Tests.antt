-- ===== src/Time/Tests.antt =====
-- Times subtracted and compared.
use ps4rpi.Prelude.{◌≡◌, refl}
use ps4rpi.Time.{Timespec, timespec_sub}

abbrev late : Timespec
late = record { tv_sec = 5; tv_nsec = 100 }

abbrev early : Timespec
early = record { tv_sec = 3; tv_nsec = 999999999 }

borrows : timespec_sub late early ≡ record { tv_sec = 1; tv_nsec = 101 }
unfolding timespec_sub
borrows = refl
