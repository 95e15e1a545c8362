-- ===== src/Request.antt =====
-- RPI/server.c, request parsing: `request_parse`, `request_field`, `request_str`, `request_id`,
-- `request_int`, `request_task_id`, `request_bool_opt`. Each gives its value, or has answered the
-- client itself. JSON is read by the tiny-json library, whose calls are a parameter.
pub mod Refusals
mod Tests
use ps4rpi.Prelude.{
  ℕ, ◌%◌, ◌^◌, Bool, true, false, not, Option, none, some, List, [], ◌∷◌, ◌++◌, ◌==◌, if◌then◌else◌,
  Bytes, codes, strlcpy,
}
use ps4rpi.Console.{is_negative}
use ps4rpi.Http.{JsonEscape}
use ps4rpi.Response.{Reply, kick_error, kick_errorf}

-- `jsonType_t`
pub data JsonType : Type 0 where
  obj array text boolean integer real null : JsonType

abbrev pub same_type : JsonType → JsonType → Bool
same_type JsonType.obj JsonType.obj = true
same_type JsonType.array JsonType.array = true
same_type JsonType.text JsonType.text = true
same_type JsonType.boolean JsonType.boolean = true
same_type JsonType.integer JsonType.integer = true
same_type JsonType.real JsonType.real = true
same_type JsonType.null JsonType.null = true
same_type _ _ = false

-- The calls on tiny-json, over its nodes; `create` is given the size of the pool of nodes.
pub record Json (Node : Type 0) : Type 0 where
  pub create : Bytes → ℕ → Option Node
  pub get_property : Node → Bytes → Option Node
  pub get_type : Node → JsonType
  pub get_value : Node → Bytes
  -- the 64-bit pattern
  pub get_integer : Node → ℕ
  pub get_boolean : Node → Bool
  -- json_getChild and, after it, json_getSibling until it gives null
  pub get_children : Node → List Node
  -- the value of a property that is no object or array
  pub get_property_value : Node → Bytes → Option Bytes

abbrev pub json_pool_size : ℕ
json_pool_size = 256

-- A value, or the reply that was sent in its stead.
pub data Parsed (A : Type 0) : Type 0 where
  parsed : A → Parsed A
  answered : Reply → Parsed A

infixl 5 ◌>>=◌
abbrev pub ◌>>=◌ : {A B : Type 0} → Parsed A → (A → Parsed B) → Parsed B
parsed a >>= f = f a
answered r >>= f = answered r

module _ {Node : Type 0} (json : Json Node) (np_escape : JsonEscape) (http_initialized : Bool) where
  abbrev bad_request : Bytes → Reply
  bad_request message = kick_error np_escape http_initialized 400 (codes "Bad request") message

  abbrev bad_requestf : Bytes → Reply
  bad_requestf message = kick_errorf np_escape http_initialized 400 (codes "Bad request") message

  -- with the quoted name of a parameter between two texts
  abbrev naming : Bytes → Bytes → Bytes → Bytes
  naming before name after = before ++ (name ++ after)

  created : Option Node → Parsed Node
  created none = answered (bad_request (codes "Invalid JSON format"))
  created (some root) = parsed root

  -- the root of the request body; none is a null `in_data`
  unfoldable pub request_parse : Option Bytes → Parsed Node
  unfolding created
  request_parse none = answered (bad_request (codes "Missing request body"))
  request_parse (some []) = answered (bad_request (codes "Missing request body"))
  request_parse (some (c ∷ s)) = created (json.create (c ∷ s) json_pool_size)

  typed : Bytes → JsonType → Option Node → Parsed Node
  typed name type none =
      answered (bad_requestf (naming (codes "No '") name (codes "' parameter specified.")))
  typed name type (some field) =
      if not (same_type (json.get_type field) type)
      then answered (bad_requestf (naming (codes "Invalid type for parameter '") name (codes "'.")))
      else parsed field

  unfoldable pub request_field : Node → Bytes → JsonType → Parsed Node
  unfolding typed
  request_field root name type = typed name type (json.get_property root name)

  unfoldable pub request_str : Node → Bytes → Parsed Bytes
  unfolding request_field
  request_str root name = do
    field ← request_field root name JsonType.text
    parsed (json.get_value field)

  bounded : Bytes → ℕ → Bytes → Parsed Bytes
  bounded name out_size [] =
      answered (bad_requestf (naming (codes "Empty value for parameter '") name (codes "'.")))
  bounded name out_size (c ∷ val) = parsed (strlcpy (c ∷ val) out_size)

  -- what the buffer of `out_size` bytes holds
  unfoldable pub request_id : Node → Bytes → ℕ → Parsed Bytes
  unfolding request_str bounded
  request_id root name out_size = do val ← request_str root name; bounded name out_size val

  -- the conversion from 64 bits to int
  unfoldable pub request_int : Node → Bytes → Parsed ℕ
  unfolding request_field
  request_int root name = do
    field ← request_field root name JsonType.integer
    parsed (json.get_integer field % 2 ^ 32)

  not_negative : ℕ → Parsed ℕ
  not_negative task_id =
      if is_negative task_id
      then answered (bad_requestf (codes "Invalid value for 'task_id' parameter specified."))
      else parsed task_id

  unfoldable pub request_task_id : Node → Parsed ℕ
  unfolding request_int not_negative
  request_task_id root = do task_id ← request_int root (codes "task_id"); not_negative task_id

  optional_bool : Bytes → Bool → Option Node → Parsed Bool
  optional_bool name before none = parsed before
  optional_bool name before (some field) =
      if not (same_type (json.get_type field) JsonType.boolean)
      then answered (bad_requestf (naming (codes "Invalid type for parameter '") name (codes "'.")))
      else parsed (json.get_boolean field)

  -- the value of `*out` after the call, given the value before
  unfoldable pub request_bool_opt : Node → Bytes → Bool → Parsed Bool
  unfolding optional_bool
  request_bool_opt root name before = optional_bool name before (json.get_property root name)
