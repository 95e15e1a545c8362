-- ===== src/Program/Labels.antt =====
-- The labels of `main`: each finishes what is below it, and leaves nothing up.
use ps4rpi.Prelude.{
  ◌≡◌, ◌∙◌, refl, Bool, true, false, if-case, if-fails, if◌then◌else◌, ◌&&◌, ◌==◌, List, [], ◌∷◌,
}
use ps4rpi.Request.{Json}
use ps4rpi.Net.Held.{net_fini-Finishes}
use ps4rpi.Server.Lifetime.{IsSettled, server_start-Starts, server_stop-IsDown, server_listen_on}
use ps4rpi.Server.Lifetime
use ps4rpi.Program.{
  Cred, ProgramCall, Machine, App, Run, exited, serving, note, unjailbreak, cleanup, err,
  err_user_service_terminate, err_appinstutil_finalize, err_bgft_finalize, err_net_finalize,
  err_http_finalize, err_server_stop,
}
use ps4rpi.Program.Parts.{
  app_inst_util_fini-Finishes, bgft_fini-Finishes, unload_modules-Unloads, http_fini-Finishes,
}

-- The credentials that the process has after the calls, the latest first.
abbrev pub holder : List ProgramCall → Cred
holder [] = Cred.og
holder (ProgramCall.set_cred c ∷ calls) = c
holder (_ ∷ calls) = holder calls

-- Whether the user service is up after the calls.
abbrev pub user_up : Machine → List ProgramCall → Bool
user_up m [] = false
user_up m (ProgramCall.user_service_init ∷ calls) = m.user_service_ret == 0
user_up m (ProgramCall.user_service_term ∷ calls) = false
user_up m (_ ∷ calls) = user_up m calls

-- the credentials are those that the flag tells, and the process's own can be handed back
abbrev pub CanReturn : App → Type 0
CanReturn a =
    (a.jailbroken ≡ true → a.has_set_cred ≡ true)
    × (holder a.calls ≡ (if a.jailbroken then Cred.jailbreak_cred else Cred.og))

abbrev pub InstUp : Bool → App → Type 0
InstUp b a = a.installer.app_inst_util_initialized ≡ b

abbrev pub NetUp : Bool → App → Type 0
NetUp b a = a.net.net_initialized ≡ b

abbrev pub HttpUp : Bool → App → Type 0
HttpUp b a = a.http.http_initialized ≡ b

abbrev pub BgftUp : Bool → App → Type 0
BgftUp b a = a.installer.bgft_initialized ≡ b

-- Everything is down, and the process has its own credentials: the flag says so, and the last that
-- were set are its own.
pub record IsDown (m : Machine) (a : App) : Type 0 where
  pub own_cred : a.jailbroken ≡ false
  pub holds_own : holder a.calls ≡ Cred.og
  pub user_service : user_up m a.calls ≡ false
  pub modules : a.modules_loaded ≡ false
  pub app_inst_util : InstUp false a
  pub bgft : BgftUp false a
  pub net : NetUp false a
  pub http : HttpUp false a
  pub server : Lifetime.IsDown a.server

-- Everything is up, and the server listens.
pub record IsUp (m : Machine) (a : App) : Type 0 where
  pub user_service : user_up m a.calls ≡ true
  pub modules : a.modules_loaded ≡ true
  pub app_inst_util : InstUp true a
  pub bgft : BgftUp true a
  pub net : NetUp true a
  pub http : HttpUp true a
  pub server : Lifetime.IsUp a.server

abbrev pub IsSettledRun : Machine → Run → Type 0
IsSettledRun m (exited a) = IsDown m a
IsSettledRun m (serving a) = IsUp m a

own_again : (b c : Bool) → (b ≡ true → c ≡ true) → b && c ≡ false → b ≡ false
own_again false c free kept = refl
own_again true c free kept = absurd (let same = free refl in cc)

unjailbreak-IsDown :
    (m : Machine) (a : App)
    → CanReturn a
    → user_up m a.calls ≡ false
    → a.modules_loaded ≡ false
    → InstUp false a
    → BgftUp false a
    → NetUp false a
    → HttpUp false a
    → Lifetime.IsDown a.server
    → IsDown m (unjailbreak a)
unfolding unjailbreak
unjailbreak-IsDown m a free user modules app bgft net http server =
    if-case (IsDown m) (a.jailbroken && a.has_set_cred) _ _
      (λ yes. record {
        own_cred = refl;
        holds_own = refl;
        user_service = user;
        modules = modules;
        app_inst_util = app;
        bgft = bgft;
        net = net;
        http = http;
        server = server;
      })
      (λ kept.
        let own = own_again a.jailbroken a.has_set_cred free.0 kept in
        record {
          own_cred = own;
          holds_own = free.1 ∙ if-fails a.jailbroken _ _ own;
          user_service = user;
          modules = modules;
          app_inst_util = app;
          bgft = bgft;
          net = net;
          http = http;
          server = server;
        })

module _ {Node : Type 0} (json : Json Node) (m : Machine) where
  pub err-Settles :
      (a : App)
      → CanReturn a
      → user_up m a.calls ≡ false
      → InstUp false a
      → BgftUp false a
      → NetUp false a
      → HttpUp false a
      → Lifetime.IsDown a.server
      → IsSettledRun m (err json m a)
  unfolding err cleanup
  err-Settles a free user app bgft net http server =
      unjailbreak-IsDown m _ free user
        (unload_modules-Unloads m.console a.modules_loaded a.log).down app bgft net http server

  pub user_service-Settles :
      (a : App)
      → CanReturn a
      → InstUp false a
      → BgftUp false a
      → NetUp false a
      → HttpUp false a
      → Lifetime.IsDown a.server
      → IsSettledRun m (err_user_service_terminate json m a)
  unfolding err_user_service_terminate
  user_service-Settles a free app bgft net http server =
      err-Settles (note ProgramCall.user_service_term a) free refl app bgft net http server

  pub app_inst_util-Settles :
      (a : App)
      → CanReturn a
      → BgftUp false a
      → NetUp false a
      → HttpUp false a
      → Lifetime.IsDown a.server
      → IsSettledRun m (err_appinstutil_finalize json m a)
  unfolding err_appinstutil_finalize
  app_inst_util-Settles a free bgft net http server =
      let f = app_inst_util_fini-Finishes m.console a.installer a.log in
      user_service-Settles _ free f.down (f.other ∙ bgft) net http server

  pub bgft-Settles :
      (a : App)
      → CanReturn a
      → NetUp false a
      → HttpUp false a
      → Lifetime.IsDown a.server
      → IsSettledRun m (err_bgft_finalize json m a)
  unfolding err_bgft_finalize
  bgft-Settles a free net http server =
      app_inst_util-Settles _ free (bgft_fini-Finishes m.console a.installer a.log).down net http
        server

  pub net-Settles :
      (a : App)
      → CanReturn a
      → HttpUp false a
      → Lifetime.IsDown a.server
      → IsSettledRun m (err_net_finalize json m a)
  unfolding err_net_finalize
  net-Settles a free http server =
      bgft-Settles _ free (net_fini-Finishes a.net a.net_log).down http server

  pub http-Settles :
      (a : App)
      → CanReturn a
      → Lifetime.IsDown a.server
      → IsSettledRun m (err_http_finalize json m a)
  unfolding err_http_finalize
  http-Settles a free server =
      net-Settles _ free (http_fini-Finishes json m.tls m.files a.http a.tls_log).down server

  pub server-Settles :
      (a : App) → CanReturn a → IsSettled a.server → IsSettledRun m (err_server_stop json m a)
  unfolding err_server_stop
  server-Settles a free server =
      http-Settles _ free (server_stop-IsDown a.server a.server_log server)
