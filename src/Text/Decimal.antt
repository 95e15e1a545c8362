-- ===== src/Text/Decimal.antt =====
-- Numbers printed in decimal, as the formats %d, %u and PRIu64 of the C library do, and read back.
use ps4rpi.Prelude.{
  ℕ, zero, suc, ◌+◌, ◌-◌, ◌*◌, ◌/◌, ◌%◌, ◌^◌, ◌<◌, ◌≡◌, refl, true, Bool-cases, inl, inr, [], ◌∷◌,
  ◌++◌, if◌then◌else◌, ltb, All, All-append, isalnum, length, length-append, Bytes, arith, ◌≤◌,
}
use ps4rpi.Console.{is_negative}

digits_from : (fuel n : ℕ) → Bytes
digits_from zero n = []
digits_from (suc fuel) n =
    let more = digits_from fuel (n / 10) in
    if ltb n 10 then (b'0' + n) ∷ [] else more ++ ((b'0' + n % 10) ∷ [])

-- Twenty digits hold every number of 64 bits.
unfoldable pub decimal : ℕ → Bytes
unfolding digits_from
decimal n = digits_from 20 n

-- `%d` of a 32-bit pattern
unfoldable pub decimal_int : ℕ → Bytes
unfolding decimal
decimal_int n = if is_negative n then b'-' ∷ decimal (2 ^ 32 - n) else decimal n

length-digits_from : (fuel n : ℕ) → length (digits_from fuel n) ≤ fuel
unfolding digits_from
length-digits_from zero n = omega arith
length-digits_from (suc fuel) n = elim (Bool-cases (ltb n 10)) [
  | inl small ↦ rw small (omega arith)
  | inr large ↦ rw large (
      omega (
        arith,
        length-digits_from fuel (n / 10),
        length-append (digits_from fuel (n / 10)) ((b'0' + n % 10) ∷ []),
      ))
]

pub length-decimal_int : (n : ℕ) → length (decimal_int n) ≤ 21
unfolding decimal_int decimal
length-decimal_int n = elim (Bool-cases (is_negative n)) [
  | inl minus ↦ rw minus (omega (arith, length-digits_from 20 (2 ^ 32 - n)))
  | inr plus ↦ rw plus (omega (arith, length-digits_from 20 n))
]

lower_hex_digit : ℕ → ℕ
lower_hex_digit n = if ltb n 10 then b'0' + n else b'a' + (n - 10)

hex_digits_from : (fuel n : ℕ) → Bytes
unfolding lower_hex_digit
hex_digits_from zero n = []
hex_digits_from (suc fuel) n =
    let more = hex_digits_from fuel (n / 16) in
    if ltb n 16 then lower_hex_digit n ∷ [] else more ++ (lower_hex_digit (n % 16) ∷ [])

-- PRIxMAX: sixteen digits hold every number of 64 bits
unfoldable pub lower_hex : ℕ → Bytes
unfolding hex_digits_from
lower_hex n = hex_digits_from 16 n

-- `%02d`
unfoldable pub two_digits : ℕ → Bytes
unfolding decimal_int
two_digits n = let s = decimal_int n in if ltb (length s) 2 then b'0' ∷ s else s

-- A letter or a digit: neither a dot nor a slash nor a colon.
abbrev pub IsAlnum : ℕ → Type 0
IsAlnum c = isalnum c ≡ true

hex_digits-IsAlnum : (fuel n : ℕ) → All IsAlnum (hex_digits_from fuel n)
unfolding hex_digits_from lower_hex_digit
hex_digits-IsAlnum zero n = tt
hex_digits-IsAlnum (suc fuel) n = elim (Bool-cases (ltb n 16)) [
  | inl small ↦ rw small (ground arith, tt)
  | inr large ↦ rw large (
      All-append IsAlnum (hex_digits_from fuel (n / 16)) _ (hex_digits-IsAlnum fuel (n / 16))
        (ground arith, tt))
]

pub lower_hex-IsAlnum : (n : ℕ) → All IsAlnum (lower_hex n)
unfolding lower_hex
lower_hex-IsAlnum n = hex_digits-IsAlnum 16 n

-- what a string of digits stands for, after the value of those before it
pub read_decimal : (before : ℕ) → Bytes → ℕ
read_decimal before [] = before
read_decimal before (c ∷ s) = read_decimal (before * 10 + (c - b'0')) s

read-append :
    (before : ℕ) (s t : Bytes)
    → read_decimal before (s ++ t) ≡ read_decimal (read_decimal before s) t
unfolding read_decimal
read-append before [] t = refl
read-append before (c ∷ s) t = read-append (before * 10 + (c - b'0')) s t

read-digits_from : (fuel n : ℕ) → n < 10 ^ fuel → read_decimal 0 (digits_from fuel n) ≡ n
unfolding read_decimal digits_from
read-digits_from zero n h = omega arith
read-digits_from (suc fuel) n h = elim (Bool-cases (ltb n 10)) [
  | inl small ↦ rw small (omega arith)
  | inr large ↦
      rw (large, read-append 0 (digits_from fuel (n / 10)) ((b'0' + n % 10) ∷ []))
        (omega (arith, read-digits_from fuel (n / 10) (omega arith)))
]

-- Every number of 64 bits is read back from its print.
pub read-decimal : (n : ℕ) → n < 2 ^ 64 → read_decimal 0 (decimal n) ≡ n
unfolding decimal
read-decimal n h = read-digits_from 20 n (omega arith)
