-- ===== src/Dispatch/Routes.antt =====
-- Which handler an event reaches, with which data, and that the tables of actions know every path
-- that reaches the handlers that search them.
use ps4rpi.Prelude.{
  ◌≡◌, ◌↔◌, refl, true, Bool-cases, Option-cases, none, some, List, [], ◌∷◌, ◌++◌, inl, inr, drop,
  All, Bytes, codes, begins_with, begins_with_sound, strstr, str_eq, str_eq_iff, arith,
}
use ps4rpi.Tables.{
  TaskRow, UninstallRow, task_actions, uninstall_actions, find_task_row, find_uninstall_row,
}
use ps4rpi.Dispatch.{
  Method, get, post, Handler, HandlerDesc, s_handlers, is_start, matches, api, find_handler,
}

-- The endpoints: files under /static/, by GET alone, and the calls of the interface, by both methods.
pub data Routes : Method → Bytes → Handler → Type 0 where
  static : (rest : Bytes) → Routes get (codes "/static/" ++ rest) Handler.handle_static
  install : (m : Method) → Routes m (codes "/api/install") Handler.handle_api_install
  uninstall_game :
      (m : Method) → Routes m (codes "/api/uninstall_game") Handler.handle_api_uninstall
  uninstall_ac : (m : Method) → Routes m (codes "/api/uninstall_ac") Handler.handle_api_uninstall
  uninstall_patch :
      (m : Method) → Routes m (codes "/api/uninstall_patch") Handler.handle_api_uninstall
  uninstall_theme :
      (m : Method) → Routes m (codes "/api/uninstall_theme") Handler.handle_api_uninstall
  is_exists : (m : Method) → Routes m (codes "/api/is_exists") Handler.handle_api_is_exists
  start_task : (m : Method) → Routes m (codes "/api/start_task") Handler.handle_api_task_action
  stop_task : (m : Method) → Routes m (codes "/api/stop_task") Handler.handle_api_task_action
  pause_task : (m : Method) → Routes m (codes "/api/pause_task") Handler.handle_api_task_action
  resume_task : (m : Method) → Routes m (codes "/api/resume_task") Handler.handle_api_task_action
  unregister_task :
      (m : Method) → Routes m (codes "/api/unregister_task") Handler.handle_api_task_action
  get_task_progress :
      (m : Method) → Routes m (codes "/api/get_task_progress") Handler.handle_api_get_task_progress
  find_task : (m : Method) → Routes m (codes "/api/find_task") Handler.handle_api_find_task
  settings : (m : Method) → Routes m (codes "/api/settings") Handler.handle_api_settings

-- what the loop of `event_handler` finds has the property, if every row that matches has it
find_handler-All :
    (P : HandlerDesc → Type 0) (wanted : Method) (path : Bytes) (rows : List HandlerDesc)
    {d : HandlerDesc}
    → All (λ r. matches wanted path r ≡ true → P r) rows
    → find_handler wanted path rows ≡ some d
    → P d
unfolding find_handler
find_handler-All P wanted path [] all h = cc
find_handler-All P wanted path (r ∷ rows) {d} (here, later) h =
    elim (Bool-cases (matches wanted path r)) [
      | inl hit ↦ let same : r ≡ d = ground arith in rw (← same) (here hit)
      | inr miss ↦ find_handler-All P wanted path rows later (ground arith)
    ]

api-Routes :
    (wanted : Method) (path name : Bytes) (h : Handler)
    → Routes wanted name h
    → matches wanted path (api name h) ≡ true
    → Routes wanted path h
unfolding matches
api-Routes get path name h r e = rw ((str_eq_iff path name).0 e) r
api-Routes post path name h r e = rw ((str_eq_iff path name).0 e) r

strstr_start : (s t : Bytes) → is_start (strstr s t) ≡ true → begins_with s t ≡ true
unfolding strstr
strstr_start [] t h = ground arith
strstr_start (x ∷ s) t h = elim (Bool-cases (begins_with (x ∷ s) t)) [
  | inl here ↦ here
  | inr later ↦ elim (Option-cases (strstr s t)) [
    | inl nowhere ↦ ground arith
    | inr (i, place) ↦ ground arith
  ]
]

static-Routes :
    (path : Bytes)
    → is_start (strstr path (codes "/static/")) ≡ true
    → Routes get path Handler.handle_static
static-Routes path h =
    let (rest, e) =
      begins_with_sound path (codes "/static/") (strstr_start path (codes "/static/") h) in
    rw e (static rest)

api_rows-All :
    (m : Method) (path : Bytes)
    → All (λ r. matches m path r ≡ true → Routes m path r.handler) (drop 1 s_handlers)
api_rows-All m path = (
  api-Routes m path _ _ (install m),
  (
    api-Routes m path _ _ (uninstall_game m),
    (
      api-Routes m path _ _ (uninstall_ac m),
      (
        api-Routes m path _ _ (uninstall_patch m),
        (
          api-Routes m path _ _ (uninstall_theme m),
          (
            api-Routes m path _ _ (is_exists m),
            (
              api-Routes m path _ _ (start_task m),
              (
                api-Routes m path _ _ (stop_task m),
                (
                  api-Routes m path _ _ (pause_task m),
                  (
                    api-Routes m path _ _ (resume_task m),
                    (
                      api-Routes m path _ _ (unregister_task m),
                      (
                        api-Routes m path _ _ (get_task_progress m),
                        (
                          api-Routes m path _ _ (find_task m),
                          (api-Routes m path _ _ (settings m), tt),
                        ),
                      ),
                    ),
                  ),
                ),
              ),
            ),
          ),
        ),
      ),
    ),
  ),
)

s_handlers-All :
    (wanted : Method) (path : Bytes)
    → All (λ r. matches wanted path r ≡ true → Routes wanted path r.handler) s_handlers
unfolding matches
s_handlers-All post path = ((λ e. ground arith), api_rows-All post path)
s_handlers-All get path = (static-Routes path, api_rows-All get path)

abbrev Found : Method → Bytes → Handler → Type 0
Found wanted path h =
    (d : HandlerDesc) × (find_handler wanted path s_handlers ≡ some d) × (d.handler ≡ h)

find_handler_complete :
    (wanted : Method) (path : Bytes) (h : Handler) → Routes wanted path h → Found wanted path h
unfolding find_handler matches strstr begins_with str_eq
find_handler_complete get _ _ (static rest) = (_, refl, refl)
find_handler_complete get _ _ (install _) = (_, refl, refl)
find_handler_complete post _ _ (install _) = (_, refl, refl)
find_handler_complete get _ _ (uninstall_game _) = (_, refl, refl)
find_handler_complete post _ _ (uninstall_game _) = (_, refl, refl)
find_handler_complete get _ _ (uninstall_ac _) = (_, refl, refl)
find_handler_complete post _ _ (uninstall_ac _) = (_, refl, refl)
find_handler_complete get _ _ (uninstall_patch _) = (_, refl, refl)
find_handler_complete post _ _ (uninstall_patch _) = (_, refl, refl)
find_handler_complete get _ _ (uninstall_theme _) = (_, refl, refl)
find_handler_complete post _ _ (uninstall_theme _) = (_, refl, refl)
find_handler_complete get _ _ (is_exists _) = (_, refl, refl)
find_handler_complete post _ _ (is_exists _) = (_, refl, refl)
find_handler_complete get _ _ (start_task _) = (_, refl, refl)
find_handler_complete post _ _ (start_task _) = (_, refl, refl)
find_handler_complete get _ _ (stop_task _) = (_, refl, refl)
find_handler_complete post _ _ (stop_task _) = (_, refl, refl)
find_handler_complete get _ _ (pause_task _) = (_, refl, refl)
find_handler_complete post _ _ (pause_task _) = (_, refl, refl)
find_handler_complete get _ _ (resume_task _) = (_, refl, refl)
find_handler_complete post _ _ (resume_task _) = (_, refl, refl)
find_handler_complete get _ _ (unregister_task _) = (_, refl, refl)
find_handler_complete post _ _ (unregister_task _) = (_, refl, refl)
find_handler_complete get _ _ (get_task_progress _) = (_, refl, refl)
find_handler_complete post _ _ (get_task_progress _) = (_, refl, refl)
find_handler_complete get _ _ (find_task _) = (_, refl, refl)
find_handler_complete post _ _ (find_task _) = (_, refl, refl)
find_handler_complete get _ _ (settings _) = (_, refl, refl)
find_handler_complete post _ _ (settings _) = (_, refl, refl)

pub find_handler_sound :
    (wanted : Method) (path : Bytes) {d : HandlerDesc}
    → find_handler wanted path s_handlers ≡ some d
    → Routes wanted path d.handler
find_handler_sound wanted path found =
    find_handler-All (λ r. Routes wanted path r.handler) wanted path s_handlers
      (s_handlers-All wanted path) found

pub find_handler-none :
    (wanted : Method) (path : Bytes)
    → find_handler wanted path s_handlers ≡ none
    → (h : Handler) → ¬ Routes wanted path h
find_handler-none wanted path missing h route =
    let (d, found, same) = find_handler_complete wanted path h route in cc

-- The loop of `event_handler` finds a row with a given handler exactly when the path and the
-- method are an endpoint of that handler: a file under /static/ by GET, or one of the fourteen
-- calls by GET or POST.
pub find_handler_iff :
    (wanted : Method) (path : Bytes) (h : Handler)
    → ((d : HandlerDesc) × (find_handler wanted path s_handlers ≡ some d) × (d.handler ≡ h))
      ↔ Routes wanted path h
find_handler_iff wanted path h = (
  (λ (d, found, same). rw (← same) (find_handler_sound wanted path found)),
  find_handler_complete wanted path h,
)

-- The handler's table of actions, if it has one, has the path.
abbrev pub IsKnown : Handler → Bytes → Type 0
IsKnown Handler.handle_api_task_action path =
    (row : TaskRow) × (find_task_row path task_actions ≡ some row)
IsKnown Handler.handle_api_uninstall path =
    (row : UninstallRow) × (find_uninstall_row path uninstall_actions ≡ some row)
IsKnown _ path = Unit

route-IsKnown :
    (wanted : Method) (path : Bytes) (h : Handler) → Routes wanted path h → IsKnown h path
unfolding find_task_row find_uninstall_row str_eq
route-IsKnown m _ _ (start_task _) = (_, refl)
route-IsKnown m _ _ (stop_task _) = (_, refl)
route-IsKnown m _ _ (pause_task _) = (_, refl)
route-IsKnown m _ _ (resume_task _) = (_, refl)
route-IsKnown m _ _ (unregister_task _) = (_, refl)
route-IsKnown m _ _ (uninstall_game _) = (_, refl)
route-IsKnown m _ _ (uninstall_ac _) = (_, refl)
route-IsKnown m _ _ (uninstall_patch _) = (_, refl)
route-IsKnown m _ _ (uninstall_theme _) = (_, refl)
route-IsKnown m _ _ _ = tt

-- Every path for which the loop finds the handler of tasks is in that handler's table of actions,
-- and every path for which it finds the handler of uninstalls is in its table.
pub find_handler-IsKnown :
    (wanted : Method) (path : Bytes) {d : HandlerDesc}
    → find_handler wanted path s_handlers ≡ some d
    → IsKnown d.handler path
find_handler-IsKnown wanted path {d} found =
    route-IsKnown wanted path d.handler (find_handler_sound wanted path found)
