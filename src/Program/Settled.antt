-- ===== src/Program/Settled.antt =====
-- The whole start of main (RPI/main.c), jailbreak included, and its ends.
use mathlib.Core.Path.{subst}
use ps4rpi.Prelude.{
  ℕ, ◌≡◌, ◌∙◌, refl, sym, ap, Bool, true, false, not, if-case, if-fails, if◌then◌else◌, ◌||◌, ◌==◌,
}
use ps4rpi.Console.{is_negative}
use ps4rpi.Modules.{load_modules}
use ps4rpi.Request.{Json}
use ps4rpi.Server.Lifetime
use ps4rpi.Program.{
  Cred, Export, ProgramCall, Machine, App, note, break_out, jailbreak, err, with_modules, main,
}
use ps4rpi.Program.Parts.{load_modules-Loads}
use ps4rpi.Program.Labels.{
  CanReturn, InstUp, BgftUp, NetUp, HttpUp, IsDown, IsSettledRun, holder, user_up, err-Settles,
}
use ps4rpi.Program.Stages.{not-fails, with_modules-Settles}

third_holds : (b c d : Bool) → not b || not c || not d ≡ false → d ≡ true
third_holds true true true h = refl
third_holds true true false h = absurd cc
third_holds true false d h = absurd cc
third_holds false c d h = absurd cc

module _ {Node : Type 0} (json : Json Node) (m : Machine) where
  -- what the start leaves as it was
  record Escapes (a b : App) : Type 0 where
    pub free : CanReturn b
    pub user : user_up m b.calls ≡ user_up m a.calls
    pub installer : b.installer ≡ a.installer
    pub net : b.net ≡ a.net
    pub http : b.http ≡ a.http
    pub server : b.server ≡ a.server

  break_out-Escapes :
      (a : App) → a.jailbroken ≡ false → holder a.calls ≡ Cred.og → Escapes a (break_out json m a)
  unfolding break_out
  break_out-Escapes a own cred =
      if-case (Escapes a)
        (not (m.exports Export.jbc_get_cred)
          || not (m.exports Export.jbc_jailbreak_cred)
          || not (m.exports Export.jbc_set_cred))
        _ _
        (λ lacking. record {
          free = (λ taken. absurd cc, cred ∙ sym (if-fails a.jailbroken _ _ own));
          user = refl;
          installer = refl;
          net = refl;
          http = refl;
          server = refl;
        })
        (λ there. record {
          free = (λ taken. third_holds _ _ _ there, refl);
          user = refl;
          installer = refl;
          net = refl;
          http = refl;
          server = refl;
        })

  jailbreak-Escapes :
      (a : App) → a.jailbroken ≡ false → holder a.calls ≡ Cred.og → Escapes a (jailbreak json m a)
  unfolding jailbreak
  jailbreak-Escapes a own cred =
      if-case (Escapes a) (is_negative m.libjbc || m.libjbc == 0) _ _
        (λ failed. record {
          free = (λ taken. absurd cc, cred ∙ sym (if-fails a.jailbroken _ _ own));
          user = refl;
          installer = refl;
          net = refl;
          http = refl;
          server = refl;
        })
        (λ loaded.
          let e = break_out-Escapes (note ProgramCall.load_libjbc a) own cred in
          record {
            free = e.free;
            user = e.user;
            installer = e.installer;
            net = e.net;
            http = e.http;
            server = e.server;
          })

  -- from `load_modules` on
  loading-Settles :
      (polls : ℕ) (a : App)
      → CanReturn a
      → user_up m a.calls ≡ false
      → InstUp false a
      → BgftUp false a
      → NetUp false a
      → HttpUp false a
      → Lifetime.IsDown a.server
      → let r = load_modules m.console a.modules_loaded a.log in
        let b = record a { modules_loaded = r.modules_loaded; log = r.log } in
        IsSettledRun m (if not r.status then err json m b else with_modules json m polls b)
  loading-Settles polls a free user app bgft net http down =
      let r = load_modules m.console a.modules_loaded a.log in
      let answers = (load_modules-Loads m.console a.modules_loaded a.log).answers in
      let b = record a { modules_loaded = r.modules_loaded; log = r.log } in
      if-case (IsSettledRun m) (not r.status) _ _
        (λ bad. err-Settles json m b free user app bgft net http down)
        (λ good.
          with_modules-Settles json m polls b free (answers ∙ not-fails r.status good) app bgft net
            http down)

  -- Started with everything down, the program either exits with everything down again, the user
  -- service too, whichever step failed, and with its own credentials, which are then the last that
  -- were set if any were; or it serves with everything up, whatever number of polls are made.
  pub main-IsSettledRun : (polls : ℕ) (a : App) → IsDown m a → IsSettledRun m (main json m polls a)
  unfolding main
  main-IsSettledRun polls a0 down =
      let e = jailbreak-Escapes a0 down.own_cred down.holds_own in
      loading-Settles polls (jailbreak json m a0) e.free (e.user ∙ down.user_service)
        (ap (λ s. s.app_inst_util_initialized) e.installer ∙ down.app_inst_util)
        (ap (λ s. s.bgft_initialized) e.installer ∙ down.bgft)
        (ap (λ s. s.net_initialized) e.net ∙ down.net)
        (ap (λ s. s.http_initialized) e.http ∙ down.http)
        (subst Lifetime.IsDown (sym e.server) down.server)
