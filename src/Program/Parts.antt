-- ===== src/Program/Parts.antt =====
-- What starting and finishing a part of the program does to the flag of the part.
use ps4rpi.Prelude.{◌≡◌, refl, Bool, true, false, not, if-case, ◌==◌, ◌∷◌}
use ps4rpi.Console.{Console, Call, Log}
use ps4rpi.Installer.{Installer, Change, app_inst_util_init, app_inst_util_fini, bgft_heap_size}
use ps4rpi.Bgft.{bgft_init, bgft_fini}
use ps4rpi.Modules.Rollback.{load_modules-answers}
use ps4rpi.Modules.{Loading, load_modules, unload_modules}
use ps4rpi.Tls.{HttpResult, HttpState, TlsLog, TlsLibrary}
use ps4rpi.Tls.Config.{http_fini}
use ps4rpi.Files.{Source}
use ps4rpi.Request.{Json}
use ps4rpi.Prelude.{Bytes}

-- the answer of the start is the flag after it, and the flag of the other service is as before
pub record InitsApp (s : Installer) (r : Change) : Type 0 where
  pub answers : r.state.app_inst_util_initialized ≡ r.status
  pub other : r.state.bgft_initialized ≡ s.bgft_initialized

pub record InitsBgft (s : Installer) (r : Change) : Type 0 where
  pub answers : r.state.bgft_initialized ≡ r.status
  pub other : r.state.app_inst_util_initialized ≡ s.app_inst_util_initialized

pub record Loads (r : Loading) : Type 0 where
  pub answers : r.modules_loaded ≡ r.status

pub record FinishesApp (s : Installer) (r : Change) : Type 0 where
  pub down : r.state.app_inst_util_initialized ≡ false
  pub other : r.state.bgft_initialized ≡ s.bgft_initialized

pub record FinishesBgft (r : Change) : Type 0 where
  pub down : r.state.bgft_initialized ≡ false

pub record FinishesHttp (r : HttpResult) : Type 0 where
  pub down : r.state.http_initialized ≡ false

pub record Unloads (r : Loading) : Type 0 where
  pub down : r.modules_loaded ≡ false

not-true : (b : Bool) → not b ≡ true → b ≡ false
not-true false h = refl
not-true true h = absurd cc

module _ (k : Console) where
  pub app_inst_util_init-Inits :
      (s : Installer) (log : Log) → InitsApp s (app_inst_util_init k s log)
  unfolding app_inst_util_init
  app_inst_util_init-Inits s log =
      if-case (InitsApp s) s.app_inst_util_initialized _ _
        (λ up. record { answers = up; other = refl })
        (λ down.
          if-case (InitsApp s) (k.ret log Call.app_inst_util_initialize == 0) _ _
            (λ good. record { answers = refl; other = refl })
            (λ bad. record { answers = refl; other = refl }))

  pub app_inst_util_fini-Finishes :
      (s : Installer) (log : Log) → FinishesApp s (app_inst_util_fini k s log)
  unfolding app_inst_util_fini
  app_inst_util_fini-Finishes s log =
      if-case (FinishesApp s) (not s.app_inst_util_initialized) _ _
        (λ down. record { down = not-true s.app_inst_util_initialized down; other = refl })
        (λ up. record { down = refl; other = refl })

  pub bgft_init-Inits : (s : Installer) (log : Log) → InitsBgft s (bgft_init k s log)
  unfolding bgft_init
  bgft_init-Inits s log =
      let heap = k.ret log (Call.malloc bgft_heap_size) in
      if-case (InitsBgft s) s.bgft_initialized _ _ (λ up. record { answers = up; other = refl })
        (λ down.
          if-case (InitsBgft s) (heap == 0) _ _ (λ full. record { answers = refl; other = refl })
            (λ room.
              if-case (InitsBgft s)
                (k.ret (Call.malloc bgft_heap_size ∷ log) (Call.bgft_service_init heap) == 0) _ _
                (λ good. record { answers = refl; other = refl })
                (λ bad. record { answers = refl; other = refl })))

  pub bgft_fini-Finishes : (s : Installer) (log : Log) → FinishesBgft (bgft_fini k s log)
  unfolding bgft_fini
  bgft_fini-Finishes s log =
      if-case FinishesBgft (not s.bgft_initialized) _ _
        (λ down. record { down = not-true s.bgft_initialized down }) (λ up. record { down = refl })

  pub unload_modules-Unloads : (loaded : Bool) (log : Log) → Unloads (unload_modules k loaded log)
  unfolding unload_modules
  unload_modules-Unloads true log = record { down = refl }
  unload_modules-Unloads false log = record { down = refl }

  pub load_modules-Loads : (loaded : Bool) (log : Log) → Loads (load_modules k loaded log)
  unfolding load_modules
  load_modules-Loads true log = record { answers = refl }
  load_modules-Loads false log = record { answers = load_modules-answers k log }

module _ {Node : Type 0} (json : Json Node) (tls : TlsLibrary) (files : Bytes → Source) where
  pub http_fini-Finishes :
      (s : HttpState) (log : TlsLog) → FinishesHttp (http_fini json tls files s log)
  unfolding http_fini
  http_fini-Finishes s log =
      if-case FinishesHttp (not s.http_initialized) _ _
        (λ down. record { down = not-true s.http_initialized down }) (λ up. record { down = refl })
