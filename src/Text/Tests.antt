-- ===== src/Text/Tests.antt =====
-- Strings encoded, trimmed and compared.
use ps4rpi.Prelude.{◌+◌, ◌≤◌, ◌≡◌, refl, true, false, none, some, length, All, Bytes, codes, arith}
use ps4rpi.Text.{rtrim, url_encode, encode_size, HexErrors}
use ps4rpi.Text.Percent.{plain, percent_decode, IsUrlByte, decode-url_encode, url_encode_safe}

abbrev spaced : Bytes
spaced = codes "/a b"

encodes : url_encode (λ n. true) spaced ≡ some (codes "/a%20b")
unfolding url_encode
encodes = refl

without_memory : url_encode (λ n. false) spaced ≡ none
unfolding url_encode
without_memory = refl

decode-url_encode_example : percent_decode plain (codes "/a%20b") ≡ spaced
decode-url_encode_example = decode-url_encode (λ n. true) spaced (ground arith) encodes

url_encode_safe_example :
    All IsUrlByte (codes "/a%20b") × (length (codes "/a%20b") + 1 ≤ encode_size spaced)
url_encode_safe_example = url_encode_safe (λ n. true) spaced (ground arith) (omega arith) encodes

abbrev errors : HexErrors
errors = record { einval = 0x80020016; enospc = 0x8002001C }

trims : rtrim (codes "no host \n") ≡ (codes "no host", some 6)
unfolding rtrim
trims = refl
