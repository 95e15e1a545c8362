-- ===== src/Server/Lifetime.antt =====
-- What the static variables hold over the lifetime of the server.
use mathlib.Core.Path.{subst}
use ps4rpi.Prelude.{
  ℕ, zero, suc, ◌≡◌, ◌⊎◌, ◌∙◌, refl, sym, ap, Bool-cases, if-holds, if-fails, if-case, take, true,
  false, not, inl, inr, Option, none, some, List, [], ◌∷◌, if◌then◌else◌, Bytes,
}
use ps4rpi.Text.Decimal.{decimal_int}
use ps4rpi.Cleanup.{Directory}
use ps4rpi.Server.{
  ServerCall, ServerLog, ServerState, Started, returned, listening, server_poll_interval_us,
  err_free_ip_address, err_work_dir_free, serve, listen, server_listen, server_stop, with_work_dir,
  with_ip_address, server_start,
}

-- With the server down, no string is allocated and there is no server.
pub record IsDown (s : ServerState) : Type 0 where
  pub started : s.server_started ≡ false
  pub no_ip : s.ip_address ≡ none
  pub no_dir : s.work_dir ≡ none
  pub no_server : s.server ≡ none

-- With it up, it has the address, the directory and the server.
pub record IsUp (s : ServerState) : Type 0 where
  pub started : s.server_started ≡ true
  pub ip : Bytes
  pub has_ip : s.ip_address ≡ some ip
  pub dir : Bytes
  pub has_dir : s.work_dir ≡ some dir
  pub id : ℕ
  pub has_server : s.server ≡ some id

-- the rounds of a poll and a pause
abbrev rounds : ℕ → Option ℕ → ServerLog → ServerLog
rounds zero server log = log
rounds (suc n) server log =
    rounds n server
      (ServerCall.usleep server_poll_interval_us ∷ ServerCall.poll_server server ∷ log)

listen_on :
    (polls : ℕ) (s : ServerState) (log : ServerLog)
    → s.server_started ≡ true
    → listen polls s log ≡ listening (rounds polls s.server log)
unfolding listen
listen_on zero s log up = refl
listen_on (suc polls) s log up =
    if-holds s.server_started _ _ up
    ∙ listen_on polls s
        (ServerCall.usleep server_poll_interval_us ∷ ServerCall.poll_server s.server ∷ log) up

-- the loop of a server that was started is followed to the end of the polls
pub server_listen_on :
    (polls : ℕ) (s : ServerState) (log : ServerLog)
    → server_listen polls s log
      ≡ (if s.server_started then listening (rounds polls s.server log) else returned false log)
unfolding server_listen
server_listen_on polls s log = elim (Bool-cases s.server_started) [
  | inl up ↦
      if-fails (not s.server_started) _ _ (ap not up)
      ∙ (listen_on polls s log up ∙ sym (if-holds s.server_started _ _ up))
  | inr down ↦
      if-holds (not s.server_started) _ _ (ap not down) ∙ sym (if-fails s.server_started _ _ down)
]

-- Up or down, as the flag says.
abbrev pub IsSettled : ServerState → Type 0
IsSettled s = IsDown s ⊎ IsUp s

-- What is returned is whether the server is up, and it is up or down with nothing in between.
record Settles (r : Started) : Type 0 where
  pub answers : r.state.server_started ≡ r.status
  pub settled : IsSettled r.state

module _ (new_server : ServerLog → Bytes → Option ℕ) (directory : Directory) where
  serve-Settles :
      (o : Option ℕ) (s : ServerState) (log : ServerLog) (unlinked : List Bytes) (ip dir : Bytes)
      → s.server_started ≡ false
      → s.ip_address ≡ some ip
      → s.work_dir ≡ some dir
      → Settles (serve o s log unlinked)
  unfolding serve err_work_dir_free err_free_ip_address
  serve-Settles none s log unlinked ip dir down has_ip has_dir = record {
    answers = down;
    settled = inl (record { started = down; no_ip = refl; no_dir = refl; no_server = refl });
  }
  serve-Settles (some server) s log unlinked ip dir down has_ip has_dir = record {
    answers = refl;
    settled = inr (record {
      started = refl;
      ip = ip;
      has_ip = has_ip;
      dir = dir;
      has_dir = has_dir;
      id = server;
      has_server = refl;
    });
  }

  unaddressed-Settles :
      (s : ServerState) (log : ServerLog)
      → s.server_started ≡ false
      → s.work_dir ≡ none
      → s.server ≡ none
      → Settles (err_free_ip_address s log [])
  unfolding err_free_ip_address
  unaddressed-Settles s log down no_dir no_server = record {
    answers = down;
    settled = inl (record { started = down; no_ip = refl; no_dir = no_dir; no_server = no_server });
  }

  with_work_dir-Settles :
      (work_dir : Option Bytes) (s : ServerState) (log : ServerLog) (ip : Bytes)
      → s.server_started ≡ false
      → s.ip_address ≡ some ip
      → s.work_dir ≡ none
      → s.server ≡ none
      → Settles (with_work_dir new_server directory work_dir s log)
  unfolding with_work_dir
  with_work_dir-Settles none s log ip down has_ip no_dir no_server =
      unaddressed-Settles s log down no_dir no_server
  with_work_dir-Settles (some []) s log ip down has_ip no_dir no_server =
      unaddressed-Settles s log down no_dir no_server
  with_work_dir-Settles (some (c ∷ dir)) s log ip down has_ip no_dir no_server =
      serve-Settles _ (record s { work_dir = some (c ∷ dir) }) _ _ ip (c ∷ dir) down has_ip refl

  with_ip_address-Settles :
      (ip_address : Option Bytes) (port : ℕ) (work_dir : Option Bytes) (s : ServerState)
      (log : ServerLog)
      → IsDown s
      → Settles (with_ip_address new_server directory ip_address port work_dir s log)
  unfolding with_ip_address
  with_ip_address-Settles none port work_dir s log down = record {
    answers = down.started;
    settled = inl down;
  }
  with_ip_address-Settles (some []) port work_dir s log down = record {
    answers = down.started;
    settled = inl down;
  }
  with_ip_address-Settles (some (c ∷ ip)) port work_dir s log down =
      with_work_dir-Settles work_dir _ log (c ∷ ip) down.started refl down.no_dir down.no_server

  -- The server was made, with what the start was given.
  pub record Begins (ip_address : Option Bytes) (port : ℕ) (work_dir : Option Bytes)
      (log : ServerLog) (r : Started) : Type 0 where
    pub ip : r.state.ip_address ≡ ip_address
    pub at_port : r.state.port ≡ port
    pub dir : r.state.work_dir ≡ work_dir
    pub made : r.state.server ≡ new_server log (take 15 (decimal_int port))
    pub logged : r.log ≡ ServerCall.new_server (take 15 (decimal_int port)) ∷ log

  serve-Begins :
      (o : Option ℕ) (s : ServerState) (log : ServerLog) (unlinked : List Bytes)
      → new_server log (take 15 (decimal_int s.port)) ≡ o
      → let r = serve o s (ServerCall.new_server (take 15 (decimal_int s.port)) ∷ log) unlinked in
        r.status ≡ true → Begins s.ip_address s.port s.work_dir log r
  unfolding serve err_work_dir_free err_free_ip_address
  serve-Begins none s log unlinked e good = absurd cc
  serve-Begins (some server) s log unlinked e good = record {
    ip = refl;
    at_port = refl;
    dir = refl;
    made = sym e;
    logged = refl;
  }

  with_ip_address-Begins :
      (ip_address : Option Bytes) (port : ℕ) (work_dir : Option Bytes) (s : ServerState)
      (log : ServerLog)
      → let r = with_ip_address new_server directory ip_address port work_dir s log in
        r.status ≡ true → Begins ip_address port work_dir log r
  unfolding with_ip_address with_work_dir err_free_ip_address
  with_ip_address-Begins none port work_dir s log good = absurd cc
  with_ip_address-Begins (some []) port work_dir s log good = absurd cc
  with_ip_address-Begins (some (c ∷ ip)) port none s log good = absurd cc
  with_ip_address-Begins (some (c ∷ ip)) port (some []) s log good = absurd cc
  with_ip_address-Begins (some (c ∷ ip)) port (some (d ∷ dir)) s log good =
      serve-Begins _
        (record s { ip_address = some (c ∷ ip); port = port; work_dir = some (d ∷ dir) }) log _ refl
        good

  -- What a start returns is whether the server is up, and it is up or down with nothing in between.
  -- One that was up is as it was, with no call made and no file unlinked; one that was down and is up
  -- has what it was given.
  pub record Starts (ip_address : Option Bytes) (port : ℕ) (work_dir : Option Bytes)
      (s : ServerState) (log : ServerLog) (r : Started) : Type 0 where
    pub answers : r.state.server_started ≡ r.status
    pub settled : IsSettled r.state
    pub kept :
        s.server_started ≡ true → r ≡ record { status = true; state = s; log = log; unlinked = [] }
    pub begun : s.server_started ≡ false → r.status ≡ true → Begins ip_address port work_dir log r

  -- Starting the server, whichever step fails, leaves nothing allocated unless it succeeds, which it
  -- says truly. A server that is up stays as it is: no call is made and no file is unlinked. One that
  -- was down and is started is the server that was made, at the port given, as the one call, and it
  -- has the address and the directory given.
  pub server_start-Starts :
      (ip_address : Option Bytes) (port : ℕ) (work_dir : Option Bytes) (s : ServerState)
      (log : ServerLog)
      → IsSettled s
      → Starts ip_address port work_dir s log
          (server_start new_server directory ip_address port work_dir s log)
  unfolding server_start
  server_start-Starts ip_address port work_dir s log (inl down) =
      let r = with_ip_address new_server directory ip_address port work_dir s log in
      let ends = with_ip_address-Settles ip_address port work_dir s log down in
      subst (Starts ip_address port work_dir s log)
        (sym (if-fails s.server_started _ r down.started))
        (record {
          answers = ends.answers;
          settled = ends.settled;
          kept = λ up. absurd (let is_down = down.started in cc);
          begun = λ was good. with_ip_address-Begins ip_address port work_dir s log good;
        })
  server_start-Starts ip_address port work_dir s log (inr up) =
      subst (Starts ip_address port work_dir s log) (sym (if-holds s.server_started _ _ up.started))
        (record {
          answers = up.started;
          settled = inr up;
          kept = λ was. refl;
          begun = λ was good. absurd (let is_up = up.started in cc);
        })

  -- A start succeeds where there is an address, a directory and a server to be made.
  pub server_start-succeeds :
      (c : ℕ) (ip : Bytes) (port d : ℕ) (dir : Bytes) (s : ServerState) (log : ServerLog)
      → ((l : ServerLog) (port_str : Bytes) → (id : ℕ) × (new_server l port_str ≡ some id))
      → (server_start new_server directory (some (c ∷ ip)) port (some (d ∷ dir)) s log).status
        ≡ true
  unfolding server_start with_ip_address with_work_dir serve
  server_start-succeeds c ip port d dir s log makes =
      if-case (λ (r : Started). r.status ≡ true) s.server_started _ _ (λ up. refl)
        (λ down. rw ((makes log (take 15 (decimal_int port))).1) refl)

-- Stopping the server leaves it down, with nothing allocated.
pub server_stop-IsDown :
    (s : ServerState) (log : ServerLog) → IsSettled s → IsDown (server_stop s log).0
unfolding server_stop
server_stop-IsDown s log (inl down) =
    subst {A = ServerState × ServerLog} (λ r. IsDown r.0)
      (sym (if-holds (not s.server_started) _ _ (ap not down.started))) down
server_stop-IsDown s log (inr up) =
    subst {A = ServerState × ServerLog} (λ r. IsDown r.0)
      (sym (if-fails (not s.server_started) _ _ (ap not up.started)))
      (record { started = refl; no_ip = refl; no_dir = refl; no_server = refl })
