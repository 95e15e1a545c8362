-- ===== src/Http.antt =====
-- RPI/http.c, the part that the server's answers need: `http_escape_json_string`.
use ps4rpi.Prelude.{ℕ, Bool, not, Option, none, if◌then◌else◌, Bytes}

-- `sceNpUtilJsonEscape` of the console, for an out buffer of the given size; none is an error.
abbrev pub JsonEscape : Type 0
JsonEscape = ℕ → Bytes → Option Bytes

-- `s_http_initialized` and the string to escape, which no caller gives as null; none is the return
-- of false.
unfoldable pub escape_json_string : JsonEscape → Bool → ℕ → Bytes → Option Bytes
escape_json_string np_escape http_initialized max_out_size s =
    if not http_initialized then none else np_escape max_out_size s
