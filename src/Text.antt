-- ===== src/Text.antt =====
-- RPI/util.c, the functions on strings: `to_hex`, `url_encode`, `bytes_to_hex`, `starts_with`,
-- `starts_with_nocase`, `ends_with`, `ends_with_nocase`, `rtrim_ex`, `rtrim`. The children prove.
-- Pointers that the source asserts to be non-null are plain values; memory is an argument that says
-- whether `malloc` finds it.
pub mod Affix
pub mod Trim
pub mod Percent
pub mod Hex
pub mod Decimal
mod Tests
use ps4rpi.Prelude.{
  ℕ, zero, suc, ◌+◌, ◌-◌, ◌*◌, ◌/◌, ◌%◌, ◌^◌, Bool, true, false, ◌&&◌, ◌||◌, Option, none, some,
  List, [], ◌∷◌, ◌++◌, ltb, ◌==◌, if◌then◌else◌, length, get_or, take, drop, Bytes, codes, isalnum,
  isspace, tolower,
}

-- The needle from the index at which the loop of `starts_with` stops. At the needle's end the byte
-- read is the terminator, which differs from any byte of the haystack.
scan_prefix : (ℕ → ℕ) → Bytes → Bytes → Bytes
scan_prefix key [] needle = needle
scan_prefix key (h ∷ hs) [] = []
scan_prefix key (h ∷ hs) (n ∷ ns) = if key h == key n then scan_prefix key hs ns else n ∷ ns

abbrev is_terminator : Bytes → Bool
is_terminator [] = true
is_terminator (_ ∷ _) = false

unfoldable pub starts_with : Bytes → Bytes → Bool
unfolding scan_prefix
starts_with haystack needle = is_terminator (scan_prefix (λ c. c) haystack needle)

unfoldable pub starts_with_nocase : Bytes → Bytes → Bool
unfolding scan_prefix
starts_with_nocase haystack needle = is_terminator (scan_prefix tolower haystack needle)

-- The loop of `ends_with`, over the needle and the haystack from index `diff`. Where the haystack
-- ends the terminator is read, which differs from the needle's byte.
match_from : (ℕ → ℕ) → Bytes → Bytes → Bool
match_from key [] hs = true
match_from key (n ∷ ns) [] = false
match_from key (n ∷ ns) (h ∷ hs) = if key n == key h then match_from key ns hs else false

-- `diff < 0` is tested before it is used, so the truncated `-` is exact
unfoldable pub ends_with : Bytes → Bytes → Bool
unfolding match_from
ends_with haystack needle =
    if ltb (length haystack) (length needle)
    then false
    else match_from (λ c. c) needle (drop (length haystack - length needle) haystack)

unfoldable pub ends_with_nocase : Bytes → Bytes → Bool
unfolding match_from
ends_with_nocase haystack needle =
    if ltb (length haystack) (length needle)
    then false
    else match_from tolower needle (drop (length haystack - length needle) haystack)

-- The loop `for (end = &s[len - 1]; end >= s && check(*end); --end)`, by the count of bytes up to
-- and with `end`: the result is that count where the loop stops.
trim_end : (ℕ → Bool) → Bytes → ℕ → ℕ
trim_end check s zero = zero
trim_end check s (suc k) = if check (get_or s k 0) then trim_end check s k else suc k

-- The string as it is left, and the index that the pointer returned has in it.
unfoldable pub rtrim_ex : (ℕ → Bool) → Bytes → Bytes × Option ℕ
unfolding trim_end
rtrim_ex check [] = ([], some 0)
rtrim_ex check (c ∷ s) =
    let kept = trim_end check (c ∷ s) (length (c ∷ s)) in
    (take kept (c ∷ s), if ltb 0 kept then some (kept - 1) else none)

unfoldable pub rtrim : Bytes → Bytes × Option ℕ
unfolding rtrim_ex
rtrim s = rtrim_ex isspace s

-- `hex[code & 15]`
unfoldable pub to_hex : ℕ → ℕ
to_hex c = get_or (codes "0123456789abcdef") (c % 16) 0

-- the bytes that `url_encode` copies
abbrev pub is_kept : ℕ → Bool
is_kept c =
    isalnum c
    || c == b'-'
    || c == b'_'
    || c == b'.'
    || c == b'~'
    || c == b'+'
    || c == b':'
    || c == b'/'
    || c == b'@'

-- what one round of the loop writes
encode_byte : ℕ → Bytes
unfolding to_hex
encode_byte c = if is_kept c then c ∷ [] else b'%' ∷ to_hex (c / 16) ∷ to_hex (c % 16) ∷ []

encode_from : Bytes → Bytes
unfolding encode_byte
encode_from [] = []
encode_from (c ∷ s) = encode_byte c ++ encode_from s

-- The size asked of `malloc`, in size_t.
abbrev pub encode_size : Bytes → ℕ
encode_size src = (length src * 3 + 1) % 2 ^ 64

-- `malloc` is asked for `encode_size src` bytes and either has them or not.
unfoldable pub url_encode : (malloc : ℕ → Bool) → Bytes → Option Bytes
unfolding encode_from
url_encode malloc src = if malloc (encode_size src) then some (encode_from src) else none

-- Error codes of the SDK that the function returns.
pub record HexErrors : Type 0 where
  pub einval : ℕ
  pub enospc : ℕ

-- The code returned, and the bytes stored at `buf` with the terminator.
pub record HexResult : Type 0 where
  pub ret : ℕ
  pub stored : Bytes

hex_digit : ℕ → ℕ
hex_digit n = get_or (codes "0123456789ABCDEF") n 0

hex_from : Bytes → Bytes
unfolding hex_digit
hex_from [] = []
hex_from (c ∷ s) = hex_digit (c / 16) ∷ hex_digit (c % 16) ∷ hex_from s

-- `buf` says whether the pointer is not null, `input` is none for a null `data`; `data_size` is the
-- length of `input`.
unfoldable pub bytes_to_hex : HexErrors → (buf : Bool) → (buf_size : ℕ) → Option Bytes → HexResult
unfolding hex_from
bytes_to_hex e buf buf_size none = record { ret = e.einval; stored = [] }
bytes_to_hex e false buf_size (some input) = record { ret = e.einval; stored = [] }
bytes_to_hex e true buf_size (some input) =
    if buf_size == 0 || ltb buf_size ((length input * 2 + 1) % 2 ^ 64)
    then record { ret = e.enospc; stored = [] }
    else if length input == 0
    then record { ret = 0; stored = 0 ∷ [] }
    else record { ret = 0; stored = hex_from input ++ (0 ∷ []) }
