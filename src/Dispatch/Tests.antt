-- ===== src/Dispatch/Tests.antt =====
-- Events dispatched.
use ps4rpi.Prelude.{
  ℕ, ◌≡◌, ◌↔◌, ◌⊎◌, refl, none, some, true, false, Bytes, codes, str_eq, strstr, begins_with,
}
use ps4rpi.Samples.{sample_escape}
use ps4rpi.Dispatch.{
  post, Handler, HandlerDesc, s_handlers, matches, find_handler, post_data, Stream, Var, Event,
  EventType, ignored, called, event_handler,
}
use ps4rpi.Dispatch.Routes.{Routes, find_handler_iff}
use ps4rpi.Dispatch.Events.{Dispatches, event_handler-Dispatches}

abbrev no_var : Stream → Bytes → ℕ → Var
no_var st name size = Var.missing

-- three bytes of header, then the body
abbrev posted_event : Event
posted_event = record {
  type = EventType.request;
  method = codes "post";
  path = codes "/api/stop_task";
  stream = record { recv_buf = codes "xyz{}"; data_idx = 3; expected_recv_len = 5 };
}

calls_task :
    event_handler sample_escape true no_var posted_event
    ≡ called Handler.handle_api_task_action (codes "/api/stop_task") (some (codes "{}"))
unfolding event_handler find_handler matches str_eq post_data strstr begins_with
calls_task = refl

-- files are not served to a POST
no_static : find_handler post (codes "/static/tmp_1.json") s_handlers ≡ none
unfolding find_handler matches str_eq
no_static = refl

event_handler-Dispatches_example :
    ((posted_event.type ≡ EventType.other)
      × (event_handler sample_escape true no_var posted_event ≡ ignored))
    ⊎ ((posted_event.type ≡ EventType.request)
        × Dispatches sample_escape true no_var posted_event.method posted_event.path
            posted_event.stream
            (event_handler sample_escape true no_var posted_event))
event_handler-Dispatches_example = event_handler-Dispatches sample_escape true no_var posted_event

find_handler_iff_example :
    ((d : HandlerDesc) × (find_handler post (codes "/api/find_task") s_handlers ≡ some d)
      × (d.handler ≡ Handler.handle_api_find_task))
    ↔ Routes post (codes "/api/find_task") Handler.handle_api_find_task
find_handler_iff_example =
    find_handler_iff post (codes "/api/find_task") Handler.handle_api_find_task

abbrev stop_desc : HandlerDesc
stop_desc = record {
  path = codes "/api/stop_task";
  handler = Handler.handle_api_task_action;
  methods = record { get = true; post = true };
  need_partial_match = false;
}

stop_found : find_handler post (codes "/api/stop_task") s_handlers ≡ some stop_desc
unfolding find_handler matches str_eq
stop_found = refl
