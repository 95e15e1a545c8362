-- ===== src/Text/Percent.antt =====
-- `url_encode` of RPI/util.c against percent-decoding (RFC 3986, section 2.1).
use ps4rpi.Prelude.{
  ℕ, ◌+◌, ◌-◌, ◌*◌, ◌/◌, ◌%◌, ◌^◌, ◌≤◌, ◌<◌, ◌≡◌, refl, ap, ◌∙◌, Bool, true, ◌||◌, some, [], ◌∷◌,
  ◌++◌, arith, ltb, ◌==◌, if◌then◌else◌, Bool-cases, inl, inr, length, length-append, Bytes, All,
  IsChar,
}
use ps4rpi.Text.{to_hex, is_kept, encode_byte, encode_from, encode_size, url_encode}

-- What the decoder has read of an escape.
pub data Pending : Type 0 where
  plain first : Pending
  second : ℕ → Pending

-- the value of a hexadecimal digit, of either case
unfoldable pub hex_value : ℕ → ℕ
hex_value c = if ltb b'9' c then (if ltb b'F' c then c - 87 else c - 55) else c - 48

pub percent_decode : Pending → Bytes → Bytes
unfolding hex_value
percent_decode _ [] = []
percent_decode plain (c ∷ s) =
    (if c == b'%' then [] else c ∷ []) ++ percent_decode (if c == b'%' then first else plain) s
percent_decode first (c ∷ s) = percent_decode (second (hex_value c)) s
percent_decode (second h) (c ∷ s) = (h * 16 + hex_value c) ∷ percent_decode plain s

-- a byte that may stand unescaped, or the mark of an escape
abbrev pub IsUrlByte : ℕ → Type 0
IsUrlByte c = (is_kept c || c == b'%') ≡ true

to_hex_digit : (n : ℕ) → n < 16 → (hex_value (to_hex n) ≡ n) × IsUrlByte (to_hex n)
unfolding to_hex hex_value
to_hex_digit n h = ground arith

module _ (c : ℕ) (s : Bytes) (byte : c < 256) where
  decode-encode_byte : percent_decode plain (encode_byte c ++ s) ≡ c ∷ percent_decode plain s
  unfolding percent_decode encode_byte
  decode-encode_byte = elim (Bool-cases (is_kept c)) [
    | inl kept ↦ rw kept (ground arith)
    | inr other ↦
        let high = (to_hex_digit (c / 16) (omega arith)).0 in
        let low = (to_hex_digit (c % 16) (omega arith)).0 in
        rw (other, high, low) (ap (λ d. d ∷ percent_decode plain s) (omega arith))
  ]

  encode_byte-All : All IsUrlByte s → All IsUrlByte (encode_byte c ++ s)
  unfolding encode_byte
  encode_byte-All rest = elim (Bool-cases (is_kept c)) [
    | inl kept ↦ rw kept (rw kept refl, rest)
    | inr other ↦ rw other (
      refl,
      ((to_hex_digit (c / 16) (omega arith)).1, ((to_hex_digit (c % 16) (omega arith)).1, rest)),
    )
  ]

encode_byte-le : (c : ℕ) → length (encode_byte c) ≤ 3
unfolding encode_byte
encode_byte-le c = ground arith

decode-encode_from : (s : Bytes) → All IsChar s → percent_decode plain (encode_from s) ≡ s
unfolding encode_from
decode-encode_from [] _ = unfold percent_decode in refl
decode-encode_from (c ∷ s) ((_, byte), rest) =
    decode-encode_byte c (encode_from s) byte ∙ ap (◌∷◌ c) (decode-encode_from s rest)

encode_from-All : (s : Bytes) → All IsChar s → All IsUrlByte (encode_from s)
unfolding encode_from
encode_from-All [] _ = tt
encode_from-All (c ∷ s) ((_, byte), rest) =
    encode_byte-All c (encode_from s) byte (encode_from-All s rest)

encode_from-le : (s : Bytes) → length (encode_from s) ≤ length s * 3
unfolding encode_from
encode_from-le [] = omega arith
encode_from-le (c ∷ s) =
    omega (arith, length-append (encode_byte c) (encode_from s), encode_byte-le c, encode_from-le s)

-- What `url_encode` returns for a C string decodes to that string by percent-decoding, whatever
-- bytes it has.
pub decode-url_encode :
    (malloc : ℕ → Bool) (s : Bytes) {out : Bytes}
    → All IsChar s
    → url_encode malloc s ≡ some out
    → percent_decode plain out ≡ s
unfolding url_encode
decode-url_encode malloc s {out} chars e =
    let same : encode_from s ≡ out = ground arith in rw (← same) (decode-encode_from s chars)

-- What `url_encode` returns for a C string holds only bytes that it copies and the escape mark, and
-- with its terminator it fits the memory that was asked for, where three times the length does not
-- overflow a size_t.
pub url_encode_safe :
    (malloc : ℕ → Bool) (s : Bytes) {out : Bytes}
    → All IsChar s
    → length s * 3 + 1 < 2 ^ 64
    → url_encode malloc s ≡ some out
    → All IsUrlByte out × (length out + 1 ≤ encode_size s)
unfolding url_encode
url_encode_safe malloc s {out} chars fits e =
    let same : encode_from s ≡ out = ground arith in
    rw (← same) (encode_from-All s chars, omega (arith, encode_from-le s))
