-- ===== src/Dispatch/Events.antt =====
-- What `event_handler` does with an event, for every method, path and body.
use ps4rpi.Prelude.{
  ℕ, ◌-◌, ◌≡◌, ◌<◌, ◌≤◌, refl, Bool, true, false, Bool-cases, Option, Option-cases, none, some, ◌⊎◌,
  inl, inr, ltb, take, drop, map, Bytes, codes, tolower, str_eq_iff, arith,
}
use ps4rpi.Http.{JsonEscape}
use ps4rpi.Response.{Reply, kick_result_header_json}
use ps4rpi.Response.Shape.{IsResponse, kick_error-IsResponse}
use ps4rpi.Dispatch.{
  Method, get, post, Handler, HandlerDesc, s_handlers, str_case_eq, find_handler, Stream, Var,
  Event, EventType, Dispatched, ignored, replied, called, post_data, call_get, call_handler,
  dispatch, handle_event, event_handler,
}
use ps4rpi.Dispatch.Routes.{Routes, find_handler_sound, find_handler-none}

-- equal up to the case of the letters
abbrev pub IsNamed : Bytes → Bytes → Type 0
IsNamed method name = map tolower method ≡ map tolower name

abbrev pub name_of : Method → Bytes
name_of get = codes "GET"
name_of post = codes "POST"

-- The body of a POST: what was received from `data_idx` up to the expected length, or nothing where
-- there is no body or it has no bytes.
abbrev pub IsPostData : Stream → Option Bytes → Type 0
IsPostData st none = (st.data_idx ≡ 0) ⊎ (st.expected_recv_len ≤ st.data_idx)
IsPostData st (some body) =
    (0 < st.data_idx)
    × (st.data_idx < st.expected_recv_len)
    × (body ≡ take (st.expected_recv_len - st.data_idx) (drop st.data_idx st.recv_buf))

post_data-IsPostData : (st : Stream) → IsPostData st (post_data st)
unfolding post_data
post_data-IsPostData st = elim (Bool-cases (ltb 0 st.data_idx)) [
  | inr no_body ↦ rw no_body (inl (ground arith))
  | inl some_body ↦ elim (Bool-cases (ltb st.data_idx st.expected_recv_len)) [
    | inr empty ↦ rw (some_body, empty) (inr (ground arith))
    | inl there ↦ rw (some_body, there) (ground arith, ground arith, refl)
  ]
]

unnamed : (method name : Bytes) → str_case_eq method name ≡ false → ¬ IsNamed method name
unnamed method name different same =
    let equal : str_case_eq method name ≡ true = (str_eq_iff _ _).1 same in cc

neither :
    (method : Bytes)
    → str_case_eq method (codes "GET") ≡ false
    → str_case_eq method (codes "POST") ≡ false
    → (m : Method) → ¬ IsNamed method (name_of m)
neither method not_get not_post get = unnamed method (codes "GET") not_get
neither method not_get not_post post = unnamed method (codes "POST") not_post

module _ (np_escape : JsonEscape) (http_initialized : Bool)
    (sb_get_var : Stream → Bytes → ℕ → Var) where
  -- What a request with this method, path and stream comes to.
  pub data Dispatches (method path : Bytes) (st : Stream) : Dispatched → Type 0 where
    preflight :
        (r : Reply)
        → IsNamed method (codes "OPTIONS")
        → IsResponse 200 r
        → Dispatches method path st (replied r)
    unsupported :
        (r : Reply)
        → ¬ IsNamed method (codes "OPTIONS")
        → ((m : Method) → ¬ IsNamed method (name_of m))
        → IsResponse 400 r
        → Dispatches method path st (replied r)
    unknown :
        (r : Reply) (m : Method)
        → IsNamed method (name_of m)
        → ((h : Handler) → ¬ Routes m path h)
        → IsResponse 404 r
        → Dispatches method path st (replied r)
    too_long :
        (r : Reply) (h : Handler)
        → IsNamed method (name_of get)
        → Routes get path h
        → sb_get_var st (codes "data") 2048 ≡ Var.truncated
        → IsResponse 400 r
        → Dispatches method path st (replied r)
    query :
        (h : Handler) (body : Bytes)
        → IsNamed method (name_of get)
        → Routes get path h
        → sb_get_var st (codes "data") 2048 ≡ Var.success body
        → Dispatches method path st (called h path (some body))
    no_query :
        (h : Handler)
        → IsNamed method (name_of get)
        → Routes get path h
        → sb_get_var st (codes "data") 2048 ≡ Var.missing
        → Dispatches method path st (called h path none)
    posted :
        (h : Handler) (o : Option Bytes)
        → IsNamed method (name_of post)
        → Routes post path h
        → IsPostData st o
        → Dispatches method path st (called h path o)

  call_get-Dispatches :
      (method path : Bytes) (st : Stream) (h : Handler) (v : Var)
      → IsNamed method (name_of get)
      → Routes get path h
      → sb_get_var st (codes "data") 2048 ≡ v
      → Dispatches method path st (call_get np_escape http_initialized sb_get_var h path v)
  unfolding call_get
  call_get-Dispatches method path st h (Var.success body) named route e = query h body named route e
  call_get-Dispatches method path st h Var.missing named route e = no_query h named route e
  call_get-Dispatches method path st h Var.truncated named route e =
      too_long _ h named route e (kick_error-IsResponse np_escape http_initialized 400 _ _)

  found-Dispatches :
      (method path : Bytes) (st : Stream) (m : Method) (d : HandlerDesc)
      → IsNamed method (name_of m)
      → Routes m path d.handler
      → Dispatches method path st
          (call_handler np_escape http_initialized sb_get_var m path st (some d))
  unfolding call_handler
  found-Dispatches method path st get d named route =
      call_get-Dispatches method path st d.handler _ named route refl
  found-Dispatches method path st post d named route =
      posted d.handler (post_data st) named route (post_data-IsPostData st)

  call_handler-Dispatches :
      (method path : Bytes) (st : Stream) (m : Method)
      → IsNamed method (name_of m)
      → Dispatches method path st (
          call_handler np_escape http_initialized sb_get_var m path st
            (find_handler m path s_handlers))
  call_handler-Dispatches method path st m named =
      elim (Option-cases (find_handler m path s_handlers)) [
        | inl missing ↦ rw missing (
            unfold call_handler in
            unknown _ m named (find_handler-none m path missing)
              (kick_error-IsResponse np_escape http_initialized 404 _ _))
        | inr (d, found) ↦
            rw found (found-Dispatches method path st m d named (find_handler_sound m path found))
      ]

  dispatch-Dispatches :
      (method path : Bytes) (st : Stream)
      → Dispatches method path st (dispatch np_escape http_initialized sb_get_var method path st)
  unfolding dispatch kick_result_header_json
  dispatch-Dispatches method path st = elim (Bool-cases (str_case_eq method (codes "OPTIONS"))) [
    | inl options ↦ rw options (preflight _ ((str_eq_iff _ _).0 options) (refl, tt))
    | inr other ↦ elim (Bool-cases (str_case_eq method (codes "GET"))) [
      | inl is_get ↦
          rw (other, is_get)
            (call_handler-Dispatches method path st get ((str_eq_iff _ _).0 is_get))
      | inr not_get ↦ elim (Bool-cases (str_case_eq method (codes "POST"))) [
        | inl is_post ↦
            rw (other, not_get, is_post)
              (call_handler-Dispatches method path st post ((str_eq_iff _ _).0 is_post))
        | inr not_post ↦
            rw (other, not_get, not_post)
              (unsupported _ (unnamed method (codes "OPTIONS") other)
                (neither method not_get not_post)
                (kick_error-IsResponse np_escape http_initialized 400 _ _))
      ]
    ]
  ]

  handle_event-Dispatches :
      (type : EventType) (e : Event)
      → ((type ≡ EventType.other)
          × (handle_event np_escape http_initialized sb_get_var type e ≡ ignored))
        ⊎ ((type ≡ EventType.request)
            × Dispatches e.method e.path e.stream
                (handle_event np_escape http_initialized sb_get_var type e))
  unfolding handle_event
  handle_event-Dispatches EventType.other e = inl (refl, refl)
  handle_event-Dispatches EventType.request e =
      inr (refl, dispatch-Dispatches e.method e.path e.stream)

  -- An event that is no request is ignored. A request with the method OPTIONS is answered with the
  -- code 200, one with another method than GET and POST with 400, one whose path is no endpoint of
  -- its method with 404, and a GET whose data does not fit with 400. Every other request reaches
  -- the handler of its endpoint, with the query's data of a GET or the body of a POST.
  pub event_handler-Dispatches :
      (e : Event)
      → ((e.type ≡ EventType.other)
          × (event_handler np_escape http_initialized sb_get_var e ≡ ignored))
        ⊎ ((e.type ≡ EventType.request)
            × Dispatches e.method e.path e.stream
                (event_handler np_escape http_initialized sb_get_var e))
  unfolding event_handler
  event_handler-Dispatches e = handle_event-Dispatches e.type e
