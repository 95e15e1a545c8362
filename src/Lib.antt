-- ===== src/Lib.antt =====
-- This library models RPI, the remote package installer that runs on a console and takes requests
-- over HTTP.
--
-- The program. RPI/main.c loads the system modules, brings up the network, the HTTP client, the
-- install services and the server, and takes them down again. RPI/server.c is the server:
-- event_handler finds the handler of an endpoint in s_handlers, the handler reads the JSON of the
-- request with the request_* helpers, calls a function of RPI/installer.c and answers with the
-- kick_* helpers. RPI/installer.c is the gate in front of two services of the console, the
-- application installer (AppInstUtil) and the background downloader (BGFT). RPI/pkg.c reads
-- packages and content ids, RPI/sfo.c the titles in them, RPI/http.c fetches them, RPI/util.c has
-- strings, files and time.
--
-- The files. Console has the calls of the console's system libraries, which are not in the
-- repository: a record of their answers as functions of the calls made before, and the type of a
-- call. Each function that makes calls takes the log of those made and returns it longer. Text has
-- the string functions of RPI/util.c, under their own names. ContentId is pkg_parse_content_id.
-- Installer has the static variables of RPI/installer.c and the app_inst_util_* functions without
-- that prefix, except for init and fini; Bgft has the bgft_* functions, those of bgft_download_*
-- without the prefix, and below it Bgft.Requests has all of them as one alphabet of operations.
-- Modules is load_modules and unload_modules of RPI/main.c. Response has the kick_* helpers,
-- Request the request_* helpers, Tables the two tables of actions, Handlers the endpoints on
-- titles and tasks, Dispatch the table s_handlers and event_handler, Static the files of
-- handle_static, Settings handle_api_settings, Cleanup cleanup_temp_files, all of RPI/server.c.
-- Http has http_escape_json_string of RPI/http.c, and Tls its state: the policy on certificates,
-- the bundle of trusted roots and apply_ssl_options, and in Tls.Config the configuration file,
-- http_init and http_fini; Download is its download_file_cb. Client has do_request of RPI/http.c
-- and the functions on it, http_get_file_size, http_download_file and http_unescape_uri. Sfo has
-- sfo_load_from_memory, sfo_load_from_file and sfo_find_entry of RPI/sfo.c. Package has the rest
-- of RPI/pkg.c: Package.Header the fields of a package, Package.Inspect and Package.Setup the two
-- halves of pkg_setup_prerequisites, Package.Pieces pkg_extract_piece_urls_from_ref_pkg_json. Disk
-- is the files by their paths. Install has the install endpoints of RPI/server.c: Install.Collect
-- and Install.Register are install_pieces before and from the registration of the task on,
-- Install.Endpoints the three handlers. Server has server_start, server_listen and server_stop of
-- RPI/server.c, Net the functions of RPI/net.c, and Program main, jailbreak and cleanup of
-- RPI/main.c, which composes the start and the end of all parts. Files has read_file,
-- read_text_file and write_file of RPI/util.c, and Time its timespec functions. Prelude has what
-- they share, Samples the values that the tests use.
--
-- Conventions. An int of the program is its 32-bit pattern, so that a negative one is at least 2 ^
-- 31; a pointer is a number with 0 for null, or an Option where only its target matters; a string
-- is the list of its bytes without the terminator. A store through an out pointer is an Option of
-- the answer, none where nothing is stored; the value before is a parameter where the code then
-- reads it. The libraries sandbird and tiny-json are third-party code: the calls on a stream are
-- values in the order made, the JSON calls and the escaping of the console are parameters.
--
-- Steps that may fail. The functions of Package and Install return a value or the message of the
-- macro that jumps to the label err (Package.Outcome), with the state of the HTTP client, its log
-- and the disk after them. In RPI/http.c, RPI/net.c and RPI/main.c a ladder of labels is one
-- function a label, or the closing call around the stage that the label ends.
--
-- Bounds. The loops of Files and Download around read and write run on fuel, one unit a call: a
-- call that does nothing ends the loop, so as many units as bytes are left are enough; the walk of
-- Cleanup runs on one unit a byte of the records, each record taking at least the twelve bytes
-- before its name; decimal prints on 20 units and lower_hex on 16, the digits of 64 bits.
-- server_listen, which has no end of its own, is followed for a number of polls. Every other loop
-- is a recursion on the string, the table or the list that it walks. Sizes of buffers are written
-- out where the code cuts a string to them (511 bytes of a message, 1023 of a path, the id's
-- buffer in request_id).
--
-- Not modelled: what libjbc does to the process; RPI/module.c, which nothing calls; RPI/KPutil.c,
-- which shows texts; the memory management of RPI/sfo.c and RPI/http.c; the bytes that fprintf
-- puts into the reference JSON file, whose results the code does not look at (the text printed is
-- modelled, what it comes to on the disk is a parameter). The memory that strdup takes in
-- server_start is taken to be there. Messages to the kernel log are left out. Requests are served
-- by threads of their own, and the theorems on sequences of operations take each operation as one
-- step.
mod Prelude
pub mod Text
pub mod Samples
pub mod ContentId
pub mod Console
pub mod Installer
pub mod Bgft
pub mod Modules
pub mod Http
pub mod Response
pub mod Request
pub mod Tables
pub mod Handlers
pub mod Dispatch
pub mod Static
pub mod Files
pub mod Tls
pub mod Settings
pub mod Sfo
pub mod Cleanup
pub mod Time
pub mod Download
pub mod Client
pub mod Disk
pub mod Package
pub mod Install
pub mod Net
pub mod Server
pub mod Program
