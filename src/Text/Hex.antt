-- ===== src/Text/Hex.antt =====
-- `bytes_to_hex` of RPI/util.c: its error codes, its bound, and the digits that it writes.
use ps4rpi.Prelude.{
  ℕ, ◌+◌, ◌*◌, ◌/◌, ◌%◌, ◌^◌, ◌≤◌, ◌<◌, ◌≡◌, refl, ap, true, some, [], ◌∷◌, ◌++◌, arith, ◌⊎◌, inl,
  inr, Bool-cases, ltb, length, Bytes, All,
}
use ps4rpi.Text.{HexErrors, hex_digit, hex_from, bytes_to_hex}
use ps4rpi.Text.Percent.{hex_value}

abbrev pub IsByte : ℕ → Type 0
IsByte c = c < 256

-- the bytes that pairs of digits stand for, up to the terminator
pub hex_decode : Bytes → Bytes
hex_decode (h ∷ l ∷ s) = (hex_value h * 16 + hex_value l) ∷ hex_decode s
hex_decode _ = []

-- a digit, upper case
abbrev pub IsHexDigit : ℕ → Type 0
IsHexDigit c = ((b'0' ≤ c) × (c ≤ b'9')) ⊎ ((b'A' ≤ c) × (c ≤ b'F'))

hex_digit_value : (n : ℕ) → n < 16 → (hex_value (hex_digit n) ≡ n) × IsHexDigit (hex_digit n)
unfolding hex_digit hex_value
hex_digit_value n h = ground arith

-- The call stored the digits of `input` and the terminator.
pub record IsHexOf (input stored : Bytes) : Type 0 where
  pub digits : Bytes
  pub terminated : stored ≡ digits ++ (0 ∷ [])
  pub count : length digits ≡ 2 * length input
  pub all_digits : All IsHexDigit digits
  pub decodes : hex_decode digits ≡ input

hex_from-IsHexOf :
    (s : Bytes)
    → All IsByte s
    → (length (hex_from s) ≡ 2 * length s)
      × All IsHexDigit (hex_from s)
      × (hex_decode (hex_from s) ≡ s)
unfolding hex_from hex_decode
hex_from-IsHexOf [] _ = (omega arith, tt, refl)
hex_from-IsHexOf (c ∷ s) (byte, rest) =
    let (count, all, decodes) = hex_from-IsHexOf s rest in
    let (high, is_high) = hex_digit_value (c / 16) (omega arith) in
    let (low, is_low) = hex_digit_value (c % 16) (omega arith) in
    (omega arith, (is_high, (is_low, all)), rw (high, low, decodes) (ap (λ d. d ∷ s) (omega arith)))

module _ (e : HexErrors) (buf_size : ℕ) where
  bytes_to_hex_room :
      (input : Bytes)
      → 2 * length input + 1 < 2 ^ 64
      → 2 * length input + 1 ≤ buf_size
      → bytes_to_hex e true buf_size (some input)
        ≡ record { ret = 0; stored = hex_from input ++ (0 ∷ []) }
  unfolding bytes_to_hex
  bytes_to_hex_room [] fits room = ground arith
  bytes_to_hex_room (c ∷ s) fits room = ground arith

  bytes_to_hex_small :
      (input : Bytes)
      → 2 * length input + 1 < 2 ^ 64
      → buf_size ≤ 2 * length input
      → bytes_to_hex e true buf_size (some input) ≡ record { ret = e.enospc; stored = [] }
  unfolding bytes_to_hex
  bytes_to_hex_small input fits small = ground arith

-- With both pointers given, `bytes_to_hex` succeeds exactly when the buffer has room for two digits
-- a byte and the terminator: then it returns 0 and stores the digits, which decode to the input,
-- and otherwise it returns the code for no space and stores nothing. The length of the input does
-- not overflow a size_t when doubled.
pub bytes_to_hex_lem :
    (e : HexErrors) (buf_size : ℕ) (input : Bytes)
    → All IsByte input
    → 2 * length input + 1 < 2 ^ 64
    → ((2 * length input < buf_size)
        × ((bytes_to_hex e true buf_size (some input)).ret ≡ 0)
        × IsHexOf input (bytes_to_hex e true buf_size (some input)).stored)
      ⊎ ((buf_size ≤ 2 * length input)
          × (bytes_to_hex e true buf_size (some input) ≡ record { ret = e.enospc; stored = [] }))
bytes_to_hex_lem e buf_size input bytes fits = elim (Bool-cases (ltb (2 * length input) buf_size)) [
  | inl room ↦
      let (count, all, decodes) = hex_from-IsHexOf input bytes in
      rw (bytes_to_hex_room e buf_size input fits (ground arith)) (
        inl (
          ground arith,
          refl,
          record {
            digits = hex_from input;
            terminated = refl;
            count = count;
            all_digits = all;
            decodes = decodes;
          },
        ))
  | inr small ↦ inr (ground arith, bytes_to_hex_small e buf_size input fits (ground arith))
]
