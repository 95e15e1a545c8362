-- ===== src/Program/Flawless.antt =====
-- The start of the program (RPI/main.c) on a console on which every call of it succeeds.
use ps4rpi.Prelude.{
  ℕ, ◌≡◌, ◌∙◌, refl, sym, ap, Bool, true, false, not, if-case, if-holds, some, ◌∷◌, if◌then◌else◌,
  ◌==◌, ◌||◌, Bytes, codes, inl, strlcpy,
}
use ps4rpi.Console.{Call, Log, SystemModule, is_negative}
use ps4rpi.Installer.{Installer, Change, app_inst_util_init, bgft_heap_size}
use ps4rpi.Bgft.{bgft_init}
use ps4rpi.Modules.{load_modules}
use ps4rpi.Modules.Rollback.{load_modules-loads}
use ps4rpi.Request.{Json}
use ps4rpi.Tls.{TlsCall, TlsLog}
use ps4rpi.Tls.Config.{http_init}
use ps4rpi.Tls.Config.Up.{http_init-succeeds}
use ps4rpi.Net.{NetCall, NetLog, net_init, net_get_mem_id, net_get_ipv4}
use ps4rpi.Net.Held.{net_init-succeeds, net_init-Inits}
use ps4rpi.Server.{ServerLog, Listened, listening, returned, server_start, server_listen}
use ps4rpi.Server.Lifetime
use ps4rpi.Server.Lifetime.{server_start-succeeds, server_start-Starts, server_listen_on}
use ps4rpi.Program.{
  Machine, App, Run, exited, serving, server_port, work_dir, listened, err, with_server, with_http,
  with_address, with_net, with_bgft, with_app_inst_util, with_modules, jailbreak, break_out, main,
  Export, note, ProgramCall,
}

-- every start that main asks for succeeds, whatever was asked before
pub record IsFlawless (m : Machine) : Type 0 where
  pub loads : (log : Log) (s : SystemModule) → m.console.ret log (Call.load_module s) ≡ 0
  pub user : m.user_service_ret ≡ 0
  pub app : (log : Log) → m.console.ret log Call.app_inst_util_initialize ≡ 0
  pub memory : (log : Log) → m.console.ret log (Call.malloc bgft_heap_size) == 0 ≡ false
  pub bgft : (log : Log) (heap : ℕ) → m.console.ret log (Call.bgft_service_init heap) ≡ 0
  pub netctl : (log : NetLog) → m.net.ret log NetCall.netctl_init ≡ 0
  pub net : (log : NetLog) → m.net.ret log NetCall.sce_net_init ≡ 0
  pub pool :
      (log : NetLog) (size : ℕ) → is_negative (m.net.ret log (NetCall.pool_create size)) ≡ false
  pub address : (log : NetLog) → m.net.ret log NetCall.get_ip_address ≡ 0
  pub some_address :
      (log : NetLog) → (c : ℕ) × (s : Bytes) × (strlcpy (m.net.ip_address log) 16 ≡ c ∷ s)
  pub ssl : (log : TlsLog) → is_negative (m.tls log TlsCall.ssl_init) ≡ false
  pub http :
      (log : TlsLog) (mem_id ssl : ℕ)
      → is_negative (m.tls log (TlsCall.http_init mem_id ssl)) ≡ false
  pub server : (log : ServerLog) (port : Bytes) → (id : ℕ) × (m.new_server log port ≡ some id)

-- The program did not exit.
abbrev pub IsServing : Run → Type 0
IsServing (exited a) = ⊥
IsServing (serving a) = Unit {0}

true≢false : true ≡ false → ⊥
true≢false e = absurd cc

-- the branch of a start that succeeded
goes_on : (b : Bool) (x y : Run) → b ≡ true → IsServing y → IsServing (if not b then x else y)
goes_on true x y h k = k
goes_on false x y h k = absurd cc

listens :
    {Node : Type 0} (json : Json Node) (m : Machine) (a : App) (l : Listened) (log : ServerLog)
    → l ≡ listening log
    → IsServing (listened json m a l)
unfolding listened
listens json m a (returned status log') log e = absurd cc
listens json m a (listening log') log e = tt

module _ {Node : Type 0} (json : Json Node) (m : Machine) (fine : IsFlawless m) where
  bgft_init-succeeds : (s : Installer) (log : Log) → (bgft_init m.console s log).status ≡ true
  unfolding bgft_init
  bgft_init-succeeds s log =
      if-case (λ (r : Change). r.status ≡ true) s.bgft_initialized _ _ (λ on. refl)
        (λ off.
          if-case (λ (r : Change). r.status ≡ true)
            (m.console.ret log (Call.malloc bgft_heap_size) == 0) _ _
            (λ null. absurd (true≢false (sym null ∙ fine.memory log)))
            (λ held.
              if-case (λ (r : Change). r.status ≡ true)
                (m.console.ret (Call.malloc bgft_heap_size ∷ log)
                    (Call.bgft_service_init (m.console.ret log (Call.malloc bgft_heap_size)))
                  == 0)
                _ _ (λ ok. refl)
                (λ failed.
                  absurd (true≢false (sym (ap (λ (n : ℕ). n == 0) (fine.bgft _ _)) ∙ failed)))))

  app_inst_util_init-succeeds :
      (s : Installer) (log : Log) → (app_inst_util_init m.console s log).status ≡ true
  unfolding app_inst_util_init
  app_inst_util_init-succeeds s log =
      if-case (λ (r : Change). r.status ≡ true) s.app_inst_util_initialized _ _ (λ on. refl)
        (λ off.
          if-case (λ (r : Change). r.status ≡ true)
            (m.console.ret log Call.app_inst_util_initialize == 0) _ _ (λ ok. refl)
            (λ failed. absurd (true≢false (sym (ap (λ (n : ℕ). n == 0) (fine.app log)) ∙ failed))))

  server-serves :
      (polls c : ℕ) (ip : Bytes) (a : App)
      → Lifetime.IsDown a.server
      → IsServing (with_server json m polls (c ∷ ip) a)
  unfolding with_server
  server-serves polls c ip a down =
      let r =
        server_start m.new_server m.directory (some (c ∷ ip)) server_port (some work_dir) a.server
          a.server_log in
      let starts =
        server_start-Starts m.new_server m.directory (some (c ∷ ip)) server_port (some work_dir)
          a.server a.server_log (inl down) in
      let good =
        server_start-succeeds m.new_server m.directory c ip server_port b'/' (codes "data") a.server
          a.server_log fine.server in
      goes_on r.status _ _ good (
        listens json m
          (note (ProgramCall.notify (c ∷ ip) server_port)
            (record a { server = r.state; server_log = r.log }))
          (server_listen polls r.state r.log) _
          (server_listen_on polls r.state r.log
            ∙ if-holds r.state.server_started _ _ (starts.answers ∙ good)))

  http-serves :
      (polls c : ℕ) (ip : Bytes) (a : App)
      → a.net.net_initialized ≡ true
      → Lifetime.IsDown a.server
      → IsServing (with_http json m polls (c ∷ ip) a)
  unfolding with_http
  http-serves polls c ip a net down =
      let r =
        http_init json m.tls m.files a.net.net_initialized (net_get_mem_id a.net) a.http
          a.tls_log in
      let good =
        http_init-succeeds json m.tls m.files (net_get_mem_id a.net) a.http a.tls_log
          (fine.ssl a.tls_log) (fine.http _ _ _) in
      goes_on r.status _ _
        (ap
            (λ (up : Bool).
              (http_init json m.tls m.files up (net_get_mem_id a.net) a.http a.tls_log).status)
            net
          ∙ good)
        (server-serves polls c ip (record a { http = r.state; tls_log = r.log }) down)

  address-serves :
      (polls : ℕ) (a : App)
      → a.net.net_initialized ≡ true
      → Lifetime.IsDown a.server
      → let address = net_get_ipv4 m.net 16 a.net_log in
        IsServing (with_address json m polls address.stored (record a { net_log = address.log }))
  unfolding with_address net_get_ipv4
  address-serves polls a net down =
      let (c, ip, e) = fine.some_address a.net_log in
      rw (fine.address a.net_log, e)
        (http-serves polls c ip (record a { net_log = NetCall.get_ip_address ∷ a.net_log }) net
          down)

  net-serves :
      (polls : ℕ) (a : App) → Lifetime.IsDown a.server → IsServing (with_net json m polls a)
  unfolding with_net
  net-serves polls a down =
      let r = net_init m.net a.net a.net_log in
      let good = net_init-succeeds m.net a.net a.net_log fine.netctl fine.net fine.pool in
      let up = (net_init-Inits m.net a.net a.net_log).answers ∙ good in
      goes_on r.status _ _ good
        (address-serves polls (record a { net = r.state; net_log = r.log }) up down)

  bgft-serves :
      (polls : ℕ) (a : App) → Lifetime.IsDown a.server → IsServing (with_bgft json m polls a)
  unfolding with_bgft
  bgft-serves polls a down =
      let r = bgft_init m.console a.installer a.log in
      goes_on r.status _ _ (bgft_init-succeeds a.installer a.log)
        (net-serves polls (record a { installer = r.state; log = r.log }) down)

  app-serves :
      (polls : ℕ) (a : App)
      → Lifetime.IsDown a.server
      → IsServing (with_app_inst_util json m polls a)
  unfolding with_app_inst_util
  app-serves polls a down =
      let r = app_inst_util_init m.console a.installer a.log in
      goes_on r.status _ _ (app_inst_util_init-succeeds a.installer a.log)
        (bgft-serves polls (record a { installer = r.state; log = r.log }) down)

  loading-serves :
      (polls : ℕ) (a : App)
      → a.modules_loaded ≡ false
      → Lifetime.IsDown a.server
      → let r = load_modules m.console a.modules_loaded a.log in
        let b = record a { modules_loaded = r.modules_loaded; log = r.log } in
        IsServing (if not r.status then err json m b else with_modules json m polls b)
  unfolding with_modules
  loading-serves polls a unloaded down =
      let r = load_modules m.console a.modules_loaded a.log in
      let loaded = record a { modules_loaded = r.modules_loaded; log = r.log } in
      goes_on r.status _ _
        (ap (λ (done : Bool). (load_modules m.console done a.log).status) unloaded
          ∙ load_modules-loads m.console fine.loads a.log)
        (goes_on (m.user_service_ret == 0) _ _ (ap (λ (n : ℕ). n == 0) fine.user)
          (app-serves polls (note ProgramCall.user_service_init loaded) down))

  -- what the start of the server needs is not touched by the escape from the jail
  jailbreak-IsFresh :
      (a : App)
      → a.modules_loaded ≡ false
      → Lifetime.IsDown a.server
      → let b = jailbreak json m a in (b.modules_loaded ≡ false) × Lifetime.IsDown b.server
  unfolding jailbreak break_out
  jailbreak-IsFresh a unloaded down =
      let fresh = λ (b : App). (b.modules_loaded ≡ false) × Lifetime.IsDown b.server in
      if-case fresh (is_negative m.libjbc || m.libjbc == 0) _ _ (λ e. (unloaded, down))
        (λ e.
          if-case fresh
            (not (m.exports Export.jbc_get_cred)
              || not (m.exports Export.jbc_jailbreak_cred)
              || not (m.exports Export.jbc_set_cred))
            _ _ (λ e. (unloaded, down)) (λ e. (unloaded, down)))

  -- On a console on which every start succeeds, the program begun with no module loaded and the
  -- server down does not exit: after any number of polls it serves.
  pub main-serves :
      (polls : ℕ) (a : App)
      → a.modules_loaded ≡ false
      → Lifetime.IsDown a.server
      → IsServing (main json m polls a)
  unfolding main
  main-serves polls a unloaded down =
      let (unloaded', down') = jailbreak-IsFresh a unloaded down in
      loading-serves polls (jailbreak json m a) unloaded' down'
