-- ===== src/Handlers/Tests.antt =====
-- Requests served on a console where every call succeeds.
use ps4rpi.Prelude.{◌≡◌, refl, true, some, [], ◌∷◌, Option, Bytes, codes, str_eq}
use ps4rpi.Console.{Call}
use ps4rpi.Samples.{sample_console, sample_json, sample_escape, running}
use ps4rpi.Installer.{uninstall_game}
use ps4rpi.Bgft.{pause_task}
use ps4rpi.Bgft.Tasks.{task_action, uninstall_action}
use ps4rpi.Request.{
  request_parse, request_field, request_str, request_id, request_int, request_task_id,
}
use ps4rpi.Tables.{find_task_row, find_uninstall_row}
use ps4rpi.Handlers.{
  handle_api_uninstall, handle_api_is_exists, handle_api_task_action, handle_api_get_task_progress,
  handle_api_find_task,
}
use ps4rpi.Handlers.Answers.{IsServed, handlers-IsServed}
use ps4rpi.Handlers.Effects.{
  TaskServed, UninstallServed, handle_api_task_action-TaskServed,
  handle_api_uninstall-UninstallServed,
}

abbrev body : Option Bytes
body = some (codes "{ \"task_id\": 7, \"title_id\": \"CUSA00001\" }")

pauses :
    (handle_api_task_action sample_json sample_escape true sample_console running 0
      (codes "/api/pause_task")
      body
      []).log
    ≡ Call.pause_task 7 ∷ []
unfolding handle_api_task_action find_task_row str_eq request_parse request_task_id request_int
    request_field task_action pause_task
pauses = refl

pause_returned :
    (handle_api_task_action sample_json sample_escape true sample_console running 0
      (codes "/api/pause_task")
      body
      []).returned
    ≡ true
unfolding handle_api_task_action find_task_row str_eq request_parse request_task_id request_int
    request_field task_action pause_task
pause_returned = refl

uninstall_returned :
    (handle_api_uninstall sample_json sample_escape true sample_console running 0
      (codes "/api/uninstall_game")
      body
      []).returned
    ≡ true
unfolding handle_api_uninstall find_uninstall_row str_eq request_parse request_id request_str
    request_field uninstall_action uninstall_game
uninstall_returned = refl

handle_api_task_action-TaskServed_example :
    TaskServed sample_json sample_escape true sample_console running 0
      (codes "/api/pause_task")
      body
      []
      (handle_api_task_action sample_json sample_escape true sample_console running 0
        (codes "/api/pause_task")
        body
        [])
handle_api_task_action-TaskServed_example =
    handle_api_task_action-TaskServed sample_json sample_escape true sample_console running 0
      (codes "/api/pause_task") body [] pause_returned

handle_api_uninstall-UninstallServed_example :
    UninstallServed sample_json sample_escape true sample_console running 0
      (codes "/api/uninstall_game")
      body
      []
      (handle_api_uninstall sample_json sample_escape true sample_console running 0
        (codes "/api/uninstall_game")
        body
        [])
handle_api_uninstall-UninstallServed_example =
    handle_api_uninstall-UninstallServed sample_json sample_escape true sample_console running 0
      (codes "/api/uninstall_game") body [] uninstall_returned

handlers-IsServed_example :
    IsServed [] (
      handle_api_uninstall sample_json sample_escape true sample_console running 0
        (codes "/api/pause_task")
        body
        [])
    × IsServed []
        (handle_api_is_exists sample_json sample_escape true sample_console running 0 body [])
    × IsServed [] (
        handle_api_task_action sample_json sample_escape true sample_console running 0
          (codes "/api/pause_task")
          body
          [])
    × IsServed [] (
        handle_api_get_task_progress sample_json sample_escape true sample_console running 0 body
          [])
    × IsServed []
        (handle_api_find_task sample_json sample_escape true sample_console running 0 body [])
handlers-IsServed_example =
    handlers-IsServed sample_json sample_escape true sample_console running 0
      (codes "/api/pause_task") body []
