-- ===== src/Response/Shape.antt =====
-- What a client gets: one status line, then headers, then at most one body.
use ps4rpi.Prelude.{ℕ, ◌≡◌, refl, Bool, [], ◌∷◌, Bytes}
use ps4rpi.Http.{JsonEscape}
use ps4rpi.Response.{Write, Reply, kick_error_json, kick_error, kick_errorf}

abbrev pub IsTail : Reply → Type 0
IsTail [] = Unit
IsTail (Write.header _ _ ∷ rest) = IsTail rest
IsTail (Write.writef _ _ ∷ rest) = rest ≡ []
IsTail (Write.file _ ∷ rest) = rest ≡ []
IsTail (Write.status _ _ ∷ rest) = ⊥

-- The reply is one status line, with this code, then headers, then a body at its end or none.
abbrev pub IsResponse : ℕ → Reply → Type 0
IsResponse code [] = ⊥
IsResponse code (Write.status c _ ∷ rest) = (c ≡ code) × IsTail rest
IsResponse code (_ ∷ rest) = ⊥

pub kick_error_json-IsResponse : (code : ℕ) → IsResponse 200 (kick_error_json code)
unfolding kick_error_json
kick_error_json-IsResponse code = (refl, refl)

module _ (np_escape : JsonEscape) (http_initialized : Bool) (code : ℕ) (title : Bytes) where
  pub kick_error-IsResponse :
      (error : Bytes) → IsResponse code (kick_error np_escape http_initialized code title error)
  unfolding kick_error
  kick_error-IsResponse error = (refl, refl)

  pub kick_errorf-IsResponse :
      (message : Bytes)
      → IsResponse code (kick_errorf np_escape http_initialized code title message)
  unfolding kick_errorf
  kick_errorf-IsResponse message = (refl, refl)
