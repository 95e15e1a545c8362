-- ===== src/Response.antt =====
-- RPI/server.c, the answers to a client: `set_cors_header`, `kick_error`, `kick_errorf`,
-- `kick_result_header_json`, `kick_error_json`. An answer is the list of calls made on the stream of
-- the sandbird library, in order. That library does the formatting of `sb_writef`, so such a call is
-- kept as its format and arguments.
pub mod Shape
use Prim.Native.String.{String}
use ps4rpi.Prelude.{ℕ, Bool, Option, none, some, List, [], ◌∷◌, ◌++◌, take, Bytes, codes}
use ps4rpi.Http.{JsonEscape, escape_json_string}

pub data Argument : Type 0 where
  str : Bytes → Argument
  int : ℕ → Argument

pub data Write : Type 0 where
  -- sb_send_status, sb_send_header, sb_writef, sb_send_file
  status : ℕ → Bytes → Write
  header : Bytes → Bytes → Write
  writef : String → List Argument → Write
  file : Bytes → Write

abbrev pub Reply : Type 0
Reply = List Write

unfoldable pub set_cors_header : Reply
set_cors_header =
    Write.header (codes "Content-Type") (codes "application/json")
    ∷ Write.header (codes "Access-Control-Allow-Origin") (codes "*")
    ∷ Write.header (codes "Access-Control-Allow-Methods") (codes "*")
    ∷ Write.header (codes "Access-Control-Allow-Headers") (codes "*")
    ∷ []

unfoldable pub kick_result_header_json : Reply
unfolding set_cors_header
kick_result_header_json =
    Write.status 200 (codes "OK")
    ∷ (set_cors_header ++ (Write.header (codes "Connection") (codes "close") ∷ []))

abbrev or_unescapable : Option Bytes → Bytes
or_unescapable none = codes "Unable to escape error string."
or_unescapable (some s) = s

-- The code is an int, printed as %08X.
unfoldable pub kick_error_json : ℕ → Reply
unfolding kick_result_header_json
kick_error_json code =
    kick_result_header_json
    ++ (Write.writef "{ \"status\": \"fail\", \"error_code\": 0x%08X }\n" (Argument.int code ∷ [])
        ∷ [])

module _ (np_escape : JsonEscape) (http_initialized : Bool) where
  -- no caller gives a null pointer for the error, which the code would print as "Unknown"
  unfoldable pub kick_error : ℕ → Bytes → Bytes → Reply
  unfolding set_cors_header escape_json_string
  kick_error code title error =
      let escaped = or_unescapable (escape_json_string np_escape http_initialized 1024 error) in
      Write.status code title
      ∷ (set_cors_header
          ++ (Write.header (codes "Connection") (codes "close")
              ∷ Write.writef "{ \"status\": \"fail\", \"error\": \"%s\" }\n"
                  (Argument.str escaped ∷ [])
              ∷ []))

  -- The message is given as `vsnprintf` would print it; a buffer of 512 bytes keeps 511.
  unfoldable pub kick_errorf : ℕ → Bytes → Bytes → Reply
  unfolding kick_error
  kick_errorf code title message = kick_error code title (take 511 message)
