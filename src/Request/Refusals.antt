-- ===== src/Request/Refusals.antt =====
-- A request that is not taken is answered with the code 400, and one that is taken has the fields
-- asked for.
use ps4rpi.Prelude.{
  ℕ, ◌%◌, ◌^◌, ◌≡◌, ◌≢◌, ◌⊎◌, ◌∙◌, refl, Bool, true, false, Bool-cases, Option, Option-cases, none,
  some, [], ◌∷◌, inl, inr, arith, Bytes, codes, strlcpy,
}
use ps4rpi.Console.{is_negative}
use ps4rpi.Http.{JsonEscape}
use ps4rpi.Response.Shape.{IsResponse, kick_error-IsResponse, kick_errorf-IsResponse}
use ps4rpi.Request.{
  JsonType, same_type, Json, json_pool_size, Parsed, parsed, answered, ◌>>=◌, created,
  request_parse, typed, request_field, request_str, bounded, request_id, request_int, not_negative,
  request_task_id, optional_bool, request_bool_opt,
}

-- A reply in place of a value has the code 400; a value has the property.
abbrev pub Ensures : {A : Type 0} → (A → Type 0) → Parsed A → Type 0
Ensures P (parsed a) = P a
Ensures P (answered r) = IsResponse 400 r

pub Ensures-bind :
    {A B : Type 0} (P : A → Type 0) (Q : B → Type 0) (m : Parsed A) (f : A → Parsed B)
    → Ensures P m
    → ((a : A) → P a → Ensures Q (f a))
    → Ensures Q (m >>= f)
Ensures-bind P Q (parsed a) f h next = next a h
Ensures-bind P Q (answered r) f h next = h

pub Ensures-mono :
    {A : Type 0} (P Q : A → Type 0) (m : Parsed A)
    → Ensures P m
    → ((a : A) → P a → Q a)
    → Ensures Q m
Ensures-mono P Q (parsed a) h next = next a h
Ensures-mono P Q (answered r) h next = h

pub same_type_sound : (a b : JsonType) → same_type a b ≡ true → a ≡ b
same_type_sound JsonType.obj b h = ground arith
same_type_sound _ b h = ground arith

module _ {Node : Type 0} (json : Json Node) (np_escape : JsonEscape) (http_initialized : Bool) where
  -- the property is there, with this type
  abbrev pub HasField : Node → Bytes → JsonType → Node → Type 0
  HasField root name type field =
      (json.get_property root name ≡ some field) × (json.get_type field ≡ type)

  pub request_parse-Ensures :
      (in_data : Option Bytes)
      → Ensures
          (λ root.
            (body : Bytes) × (in_data ≡ some body)
            × (body ≢ [])
            × (json.create body json_pool_size ≡ some root))
          (request_parse json np_escape http_initialized in_data)
  unfolding request_parse
  request_parse-Ensures none = kick_error-IsResponse np_escape http_initialized 400 _ _
  request_parse-Ensures (some []) = kick_error-IsResponse np_escape http_initialized 400 _ _
  request_parse-Ensures (some (c ∷ s)) = elim (Option-cases (json.create (c ∷ s) json_pool_size)) [
    | inl bad ↦ rw (bad, created) (kick_error-IsResponse np_escape http_initialized 400 _ _)
    | inr (root, good) ↦ rw (good, created) (c ∷ s, refl, cc, good)
  ]

  typed-Ensures :
      (name : Bytes) (type : JsonType) (o : Option Node)
      → Ensures
          (λ field. (o ≡ some field) × (json.get_type field ≡ type))
          (typed json np_escape http_initialized name type o)
  unfolding typed
  typed-Ensures name type none = kick_errorf-IsResponse np_escape http_initialized 400 _ _
  typed-Ensures name type (some field) = elim (Bool-cases (same_type (json.get_type field) type)) [
    | inl same ↦ rw same (refl, same_type_sound (json.get_type field) type same)
    | inr other ↦ rw other (kick_errorf-IsResponse np_escape http_initialized 400 _ _)
  ]

  pub request_field-Ensures :
      (root : Node) (name : Bytes) (type : JsonType)
      → Ensures
          (HasField root name type)
          (request_field json np_escape http_initialized root name type)
  unfolding request_field
  request_field-Ensures root name type = typed-Ensures name type (json.get_property root name)

  pub request_str-Ensures :
      (root : Node) (name : Bytes)
      → Ensures
          (λ val.
            (field : Node) × HasField root name JsonType.text field × (val ≡ json.get_value field))
          (request_str json np_escape http_initialized root name)
  unfolding request_str
  request_str-Ensures root name =
      Ensures-bind (HasField root name JsonType.text) _
        (request_field json np_escape http_initialized root name JsonType.text) _
        (request_field-Ensures root name JsonType.text) (λ field h. (field, h, refl))

  -- What `request_id` takes: a text field that is not empty, cut to the buffer.
  abbrev pub IsId : Node → Bytes → ℕ → Bytes → Type 0
  IsId root name out_size id =
      (field : Node) × HasField root name JsonType.text field
      × (json.get_value field ≢ [])
      × (id ≡ strlcpy (json.get_value field) out_size)

  bounded-Ensures :
      (name : Bytes) (out_size : ℕ) (val : Bytes)
      → Ensures
          (λ id. (val ≢ []) × (id ≡ strlcpy val out_size))
          (bounded json np_escape http_initialized name out_size val)
  unfolding bounded
  bounded-Ensures name out_size [] = kick_errorf-IsResponse np_escape http_initialized 400 _ _
  bounded-Ensures name out_size (c ∷ val) = (cc, refl)

  pub request_id-Ensures :
      (root : Node) (name : Bytes) (out_size : ℕ)
      → Ensures
          (IsId root name out_size)
          (request_id json np_escape http_initialized root name out_size)
  unfolding request_id
  request_id-Ensures root name out_size =
      Ensures-bind
        (λ val.
          (field : Node) × HasField root name JsonType.text field × (val ≡ json.get_value field))
        (IsId root name out_size) (request_str json np_escape http_initialized root name) _
        (request_str-Ensures root name)
        λ val (field, has, same).
          Ensures-mono (λ id. (val ≢ []) × (id ≡ strlcpy val out_size)) (IsId root name out_size)
            (bounded json np_escape http_initialized name out_size val)
            (bounded-Ensures name out_size val)
            (λ id (nonempty, cut). (field, has, rw (← same) nonempty, rw (← same) cut))

  pub request_int-Ensures :
      (root : Node) (name : Bytes)
      → Ensures
          (λ n.
            (field : Node) × HasField root name JsonType.integer field
            × (n ≡ json.get_integer field % 2 ^ 32))
          (request_int json np_escape http_initialized root name)
  unfolding request_int
  request_int-Ensures root name =
      Ensures-bind (HasField root name JsonType.integer) _
        (request_field json np_escape http_initialized root name JsonType.integer) _
        (request_field-Ensures root name JsonType.integer) (λ field h. (field, h, refl))

  -- What `request_task_id` takes: an integer field whose low 32 bits are not negative.
  abbrev pub IsTaskId : Node → ℕ → Type 0
  IsTaskId root task_id =
      (field : Node) × HasField root (codes "task_id") JsonType.integer field
      × (task_id ≡ json.get_integer field % 2 ^ 32)
      × (is_negative task_id ≡ false)

  not_negative-Ensures :
      (n : ℕ)
      → Ensures
          (λ task_id. (task_id ≡ n) × (is_negative n ≡ false))
          (not_negative json np_escape http_initialized n)
  unfolding not_negative
  not_negative-Ensures n = elim (Bool-cases (is_negative n)) [
    | inl negative ↦ rw negative (kick_errorf-IsResponse np_escape http_initialized 400 _ _)
    | inr fine ↦ rw fine (refl, refl)
  ]

  pub request_task_id-Ensures :
      (root : Node) → Ensures (IsTaskId root) (request_task_id json np_escape http_initialized root)
  unfolding request_task_id
  request_task_id-Ensures root =
      Ensures-bind
        (λ n.
          (field : Node) × HasField root (codes "task_id") JsonType.integer field
          × (n ≡ json.get_integer field % 2 ^ 32))
        (IsTaskId root) (request_int json np_escape http_initialized root (codes "task_id")) _
        (request_int-Ensures root (codes "task_id"))
        λ n (field, has, low).
          Ensures-mono (λ task_id. (task_id ≡ n) × (is_negative n ≡ false)) (IsTaskId root)
            (not_negative json np_escape http_initialized n) (not_negative-Ensures n)
            (λ task_id (same, fine). (field, has, same ∙ low, rw same fine))

  optional_bool-Ensures :
      (name : Bytes) (before : Bool) (o : Option Node)
      → Ensures
          (λ b.
            ((o ≡ none) × (b ≡ before))
            ⊎ ((field : Node) × (o ≡ some field)
                × (json.get_type field ≡ JsonType.boolean)
                × (b ≡ json.get_boolean field)))
          (optional_bool json np_escape http_initialized name before o)
  unfolding optional_bool
  optional_bool-Ensures name before none = inl (refl, refl)
  optional_bool-Ensures name before (some field) =
      elim (Bool-cases (same_type (json.get_type field) JsonType.boolean)) [
        | inl same ↦
            rw same
              (inr (field, refl, same_type_sound (json.get_type field) JsonType.boolean same, refl))
        | inr other ↦ rw other (kick_errorf-IsResponse np_escape http_initialized 400 _ _)
      ]

  -- An optional switch keeps its value where the request does not have it, takes the request's where
  -- that is a boolean, and is refused with the code 400 where it is anything else.
  pub request_bool_opt-Ensures :
      (root : Node) (name : Bytes) (before : Bool)
      → Ensures
          (λ b.
            ((json.get_property root name ≡ none) × (b ≡ before))
            ⊎ ((field : Node) × HasField root name JsonType.boolean field
                × (b ≡ json.get_boolean field)))
          (request_bool_opt json np_escape http_initialized root name before)
  unfolding request_bool_opt
  request_bool_opt-Ensures root name before =
      Ensures-mono _ _
        (optional_bool json np_escape http_initialized name before (json.get_property root name))
        (optional_bool-Ensures name before (json.get_property root name))
        (λ b. elim [
          | inl absent ↦ inl absent
          | inr (field, there, type, value) ↦ inr (field, (there, type), value)
        ])
