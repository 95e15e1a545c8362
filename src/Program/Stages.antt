-- ===== src/Program/Stages.antt =====
-- The stages of the start in main (RPI/main.c), from the last to the first.
use ps4rpi.Prelude.{
  ℕ, ◌≡◌, ◌∙◌, refl, Bool, true, false, not, if-case, inl, inr, Option, none, some, ◌==◌, Bytes,
}
use ps4rpi.Installer.{app_inst_util_init}
use ps4rpi.Bgft.{bgft_init}
use ps4rpi.Request.{Json}
use ps4rpi.Tls.Config.{http_init}
use ps4rpi.Tls.Config.Up.{http_init-Answers}
use ps4rpi.Net.{net_init, net_get_mem_id, net_get_ipv4}
use ps4rpi.Net.Held.{net_init-Inits}
use ps4rpi.Server.{ServerState, Listened, returned, listening, server_start, server_listen}
use ps4rpi.Server.Lifetime.{IsSettled, server_start-Starts, server_stop-IsDown, server_listen_on}
use ps4rpi.Server.Lifetime
use ps4rpi.Program.{
  ProgramCall, Machine, App, server_port, work_dir, note, listened, with_server, with_http,
  with_address, with_net, with_bgft, with_app_inst_util, with_modules,
}
use ps4rpi.Program.Parts.{app_inst_util_init-Inits, bgft_init-Inits}
use ps4rpi.Program.Labels.{
  CanReturn, InstUp, BgftUp, NetUp, HttpUp, IsSettledRun, user_up, err-Settles,
  user_service-Settles, app_inst_util-Settles, bgft-Settles, net-Settles, http-Settles,
  server-Settles,
}

not-holds : (b : Bool) → not b ≡ true → b ≡ false
not-holds false h = refl
not-holds true h = absurd cc

pub not-fails : (b : Bool) → not b ≡ false → b ≡ true
not-fails true h = refl
not-fails false h = absurd cc

settled-IsDown : {s : ServerState} → IsSettled s → s.server_started ≡ false → Lifetime.IsDown s
settled-IsDown (inl down) h = down
settled-IsDown (inr up) h = absurd (let same = up.started in cc)

settled-IsUp : {s : ServerState} → IsSettled s → s.server_started ≡ true → Lifetime.IsUp s
settled-IsUp (inl down) h = absurd (let same = down.started in cc)
settled-IsUp (inr up) h = up

module _ {Node : Type 0} (json : Json Node) (m : Machine) where
  -- the modules are loaded, and the user service is up
  abbrev Loaded : App → Type 0
  Loaded a = (a.modules_loaded ≡ true) × (user_up m a.calls ≡ true)

  -- what is up before the server is started
  record IsReady (a : App) : Type 0 where
    pub modules : Loaded a
    pub app : InstUp true a
    pub bgft : BgftUp true a
    pub net : NetUp true a
    pub http : HttpUp true a

  listened-Settles :
      (a : App) (l : Listened)
      → CanReturn a
      → IsReady a
      → Lifetime.IsUp a.server
      → IsSettledRun m (listened json m a l)
  unfolding listened
  listened-Settles a (returned status log) free ready up = server-Settles json m _ free (inr up)
  listened-Settles a (listening log) free ready up = record {
    user_service = ready.modules.1;
    modules = ready.modules.0;
    app_inst_util = ready.app;
    bgft = ready.bgft;
    net = ready.net;
    http = ready.http;
    server = up;
  }

  with_server-Settles :
      (polls : ℕ) (ip_address : Bytes) (a : App)
      → CanReturn a
      → IsReady a
      → Lifetime.IsDown a.server
      → IsSettledRun m (with_server json m polls ip_address a)
  unfolding with_server
  with_server-Settles polls ip_address a free ready down =
      let r =
        server_start m.new_server m.directory (some ip_address) server_port (some work_dir) a.server
          a.server_log in
      let starts =
        server_start-Starts m.new_server m.directory (some ip_address) server_port (some work_dir)
          a.server a.server_log (inl down) in
      if-case (IsSettledRun m) (not r.status) _ _
        (λ bad.
          http-Settles json m (record a { server = r.state; server_log = r.log }) free
            (settled-IsDown starts.settled (starts.answers ∙ not-holds r.status bad)))
        (λ good.
          listened-Settles
            (note (ProgramCall.notify ip_address server_port)
              (record a { server = r.state; server_log = r.log }))
            (server_listen polls r.state r.log) free
            (record {
              modules = ready.modules;
              app = ready.app;
              bgft = ready.bgft;
              net = ready.net;
              http = ready.http;
            })
            (settled-IsUp starts.settled (starts.answers ∙ not-fails r.status good)))

  with_http-Settles :
      (polls : ℕ) (ip_address : Bytes) (a : App)
      → CanReturn a
      → Loaded a
      → InstUp true a
      → BgftUp true a
      → NetUp true a
      → Lifetime.IsDown a.server
      → IsSettledRun m (with_http json m polls ip_address a)
  unfolding with_http
  with_http-Settles polls ip_address a free modules app bgft net down =
      let r =
        http_init json m.tls m.files a.net.net_initialized (net_get_mem_id a.net) a.http
          a.tls_log in
      let answers =
        (http_init-Answers json m.tls m.files a.net.net_initialized (net_get_mem_id a.net) a.http
          a.tls_log).answers in
      if-case (IsSettledRun m) (not r.status) _ _
        (λ bad.
          net-Settles json m (record a { http = r.state; tls_log = r.log }) free
            (answers ∙ not-holds r.status bad) down)
        (λ good.
          with_server-Settles polls ip_address (record a { http = r.state; tls_log = r.log }) free
            (record {
              modules = modules;
              app = app;
              bgft = bgft;
              net = net;
              http = answers ∙ not-fails r.status good;
            })
            down)

  with_address-Settles :
      (polls : ℕ) (o : Option Bytes) (a : App)
      → CanReturn a
      → Loaded a
      → InstUp true a
      → BgftUp true a
      → NetUp true a
      → HttpUp false a
      → Lifetime.IsDown a.server
      → IsSettledRun m (with_address json m polls o a)
  unfolding with_address
  with_address-Settles polls none a free modules app bgft net http down =
      net-Settles json m a free http down
  with_address-Settles polls (some ip_address) a free modules app bgft net http down =
      with_http-Settles polls ip_address a free modules app bgft net down

  with_net-Settles :
      (polls : ℕ) (a : App)
      → CanReturn a
      → Loaded a
      → InstUp true a
      → BgftUp true a
      → HttpUp false a
      → Lifetime.IsDown a.server
      → IsSettledRun m (with_net json m polls a)
  unfolding with_net
  with_net-Settles polls a free modules app bgft http down =
      let r = net_init m.net a.net a.net_log in
      let answers = (net_init-Inits m.net a.net a.net_log).answers in
      if-case (IsSettledRun m) (not r.status) _ _
        (λ bad.
          bgft-Settles json m (record a { net = r.state; net_log = r.log }) free
            (answers ∙ not-holds r.status bad) http down)
        (λ good.
          with_address-Settles polls (net_get_ipv4 m.net 16 r.log).stored
            (record a { net = r.state; net_log = (net_get_ipv4 m.net 16 r.log).log }) free modules
            app bgft (answers ∙ not-fails r.status good) http down)

  with_bgft-Settles :
      (polls : ℕ) (a : App)
      → CanReturn a
      → Loaded a
      → InstUp true a
      → NetUp false a
      → HttpUp false a
      → Lifetime.IsDown a.server
      → IsSettledRun m (with_bgft json m polls a)
  unfolding with_bgft
  with_bgft-Settles polls a free modules app net http down =
      let r = bgft_init m.console a.installer a.log in
      let inits = bgft_init-Inits m.console a.installer a.log in
      if-case (IsSettledRun m) (not r.status) _ _
        (λ bad.
          app_inst_util-Settles json m (record a { installer = r.state; log = r.log }) free
            (inits.answers ∙ not-holds r.status bad) net http down)
        (λ good.
          with_net-Settles polls (record a { installer = r.state; log = r.log }) free modules
            (inits.other ∙ app) (inits.answers ∙ not-fails r.status good) http down)

  with_app_inst_util-Settles :
      (polls : ℕ) (a : App)
      → CanReturn a
      → Loaded a
      → BgftUp false a
      → NetUp false a
      → HttpUp false a
      → Lifetime.IsDown a.server
      → IsSettledRun m (with_app_inst_util json m polls a)
  unfolding with_app_inst_util
  with_app_inst_util-Settles polls a free modules bgft net http down =
      let r = app_inst_util_init m.console a.installer a.log in
      let inits = app_inst_util_init-Inits m.console a.installer a.log in
      if-case (IsSettledRun m) (not r.status) _ _
        (λ bad.
          user_service-Settles json m (record a { installer = r.state; log = r.log }) free
            (inits.answers ∙ not-holds r.status bad) (inits.other ∙ bgft) net http down)
        (λ good.
          with_bgft-Settles polls (record a { installer = r.state; log = r.log }) free modules
            (inits.answers ∙ not-fails r.status good) net http down)

  pub with_modules-Settles :
      (polls : ℕ) (a : App)
      → CanReturn a
      → a.modules_loaded ≡ true
      → InstUp false a
      → BgftUp false a
      → NetUp false a
      → HttpUp false a
      → Lifetime.IsDown a.server
      → IsSettledRun m (with_modules json m polls a)
  unfolding with_modules
  with_modules-Settles polls a free modules app bgft net http down =
      if-case (IsSettledRun m) (not (m.user_service_ret == 0)) _ _
        (λ bad.
          err-Settles json m (note ProgramCall.user_service_init a) free
            (not-holds (m.user_service_ret == 0) bad) app bgft net http down)
        (λ good.
          with_app_inst_util-Settles polls (note ProgramCall.user_service_init a) free
            (modules, not-fails (m.user_service_ret == 0) good) bgft net http down)
