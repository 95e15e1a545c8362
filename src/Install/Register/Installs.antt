-- ===== src/Install/Register/Installs.antt =====
-- What an install comes to: refused with nothing left behind, or a task for the package prepared.
use ps4rpi.Prelude.{
  ℕ, ◌≡◌, ◌≢◌, refl, sym, ap, ◌∙◌, true, false, Bool-cases, inl, inr, Option, none, some, List,
  Bytes, codes,
}
use ps4rpi.Console.{Log}
use ps4rpi.Installer.{Answer}
use ps4rpi.Bgft.{register_package_task}
use ps4rpi.Bgft.Register.{Registers, register_package_task-Registers}
use ps4rpi.Disk.{Disk, unlink_self, unlink_other, unlink-none}
use ps4rpi.Tls.{SslVerify}
use ps4rpi.Response.Shape.{IsResponse, kick_error_json-IsResponse, kick_errorf-IsResponse}
use ps4rpi.Response.{kick_result_header_json}
use ps4rpi.Handlers.{stored_or}
use ps4rpi.Package.{World, Outcome, ok, thrown, PackageInfo}
use ps4rpi.Package.Setup.Unharmed.{IsOther, AreGone, pkg_setup_prerequisites-IsUnharmed}
use ps4rpi.Install.{Site, get_language_id, ref_pkg_json_path, param_sfo_path, icon0_png_path}
use ps4rpi.Install.Paths.{ref_pkg_json_path-ne-nil, param_sfo_path-ne-nil, icon0_png_path-ne-nil}
use ps4rpi.Install.Collect.{Registration, set_up}
use ps4rpi.Install.Collect.Described.{
  Describes, Collects, not_set_up, not_read, read, collect-Collects,
}
use ps4rpi.Install.Register.{
  Installed, unlink_paths, answer_of, register, with_language, install_pieces,
}

module _ (site : Site) where
  abbrev IsAside : SslVerify → Bytes → Type 0
  IsAside mode =
      IsOther site.host 256 mode (ref_pkg_json_path site) (param_sfo_path site)
        (icon0_png_path site)

  abbrev NoneLeft : SslVerify → Disk → Type 0
  NoneLeft mode =
      AreGone site.host 256 mode (ref_pkg_json_path site) (param_sfo_path site)
        (icon0_png_path site)

  -- How an install ends.
  pub data Installs (url : Bytes) (urls : List Bytes) (mode : SslVerify) (w : World) (log : Log)
      (r : Installed) : Type 0 where
    no_language :
        get_language_id site ≡ none
        → r.returned ≡ false
        → r.world ≡ w
        → r.log ≡ log
        → IsResponse 500 r.sent
        → Installs url urls mode w log r
    refused :
        r.returned ≡ false
        → r.log ≡ log
        → IsResponse 500 r.sent
        → NoneLeft mode r.world.disk
        → ((q : Bytes) → IsAside mode q → r.world.disk q ≡ w.disk q)
        → Installs url urls mode w log r
    registered :
        (info : PackageInfo) (t : Registration) (v : World)
        → set_up site url urls mode w ≡ (ok info, v)
        → Describes site info t
        → r.returned ≡ true
        → Registers site.console site.installer t.content_id t.task log
        → r.log ≡ (register_package_task site.console site.installer t.content_id t.task log).log
        → IsResponse 200 r.sent
        → r.world.disk (param_sfo_path site) ≡ none
        → ((q : Bytes) → param_sfo_path site ≢ q → r.world.disk q ≡ v.disk q)
        → ((q : Bytes) → IsAside mode q → r.world.disk q ≡ w.disk q)
        → Installs url urls mode w log r

  unlink_paths-NoneLeft : (mode : SslVerify) (disk : Disk) → NoneLeft mode (unlink_paths site disk)
  unfolding unlink_paths
  unlink_paths-NoneLeft mode disk =
      let json = ref_pkg_json_path site in
      let sfo = param_sfo_path site in
      let icon = icon0_png_path site in
      (
        unlink-none icon json _ (unlink-none sfo json _ (unlink_self json disk)),
        unlink-none icon sfo _ (unlink_self sfo _),
        unlink_self icon _,
      )

  unlink_paths_other :
      (mode : SslVerify) (disk : Disk) (q : Bytes)
      → IsAside mode q
      → unlink_paths site disk q ≡ disk q
  unfolding unlink_paths
  unlink_paths_other mode disk q (a, b, c) =
      unlink_other (icon0_png_path site) q _ c
      ∙ (unlink_other (param_sfo_path site) q _ b ∙ unlink_other (ref_pkg_json_path site) q _ a)

  -- the files aside from the three, after the preparation
  set_up_other :
      (url : Bytes) (urls : List Bytes) (mode : SslVerify) (w : World) {o : Outcome PackageInfo}
      {v : World}
      → set_up site url urls mode w ≡ (o, v)
      → (q : Bytes) → IsAside mode q
      → v.disk q ≡ w.disk q
  set_up_other url urls mode w e q p =
      ap (λ r. r.1.disk q) (sym e)
      ∙ (pkg_setup_prerequisites-IsUnharmed site.host 256 mode (ref_pkg_json_path site)
            (param_sfo_path site) (icon0_png_path site) url urls w (ref_pkg_json_path-ne-nil site)
            (param_sfo_path-ne-nil site) (icon0_png_path-ne-nil site)).others
          q p

  answer-IsResponse : (r : Registration) (a : Answer ℕ) → IsResponse 200 (answer_of site r a)
  unfolding kick_result_header_json
  answer-IsResponse r a = elim (Bool-cases a.status) [
    | inl well ↦ rw well (refl, refl)
    | inr bad ↦ rw bad (kick_error_json-IsResponse (stored_or site.before a.error))
  ]

  thrown-Installs :
      (url : Bytes) (urls : List Bytes) (mode : SslVerify) (w : World) (log : Log) (message : Bytes)
      (v : World)
      → ((q : Bytes) → IsAside mode q → v.disk q ≡ w.disk q)
      → Installs url urls mode w log (register site (thrown message) v log)
  unfolding register
  thrown-Installs url urls mode w log message v same =
      refused refl refl
        (kick_errorf-IsResponse site.np_escape v.state.http_initialized 500
          (codes "Internal server error") message)
        (unlink_paths-NoneLeft mode v.disk) (λ q p. unlink_paths_other mode v.disk q p ∙ same q p)

  register-Installs :
      (url : Bytes) (urls : List Bytes) (mode : SslVerify) (w : World) (log : Log)
      (o : Outcome Registration) (v : World)
      → Collects site url urls mode w (o, v)
      → Installs url urls mode w log (register site o v log)
  unfolding register
  register-Installs url urls mode w log (ok t) v (read {v = u} set kept describes) =
      registered _ t u set describes refl
        (register_package_task-Registers site.console site.installer t.content_id t.task log) refl
        (answer-IsResponse t
          (register_package_task site.console site.installer t.content_id t.task log))
        (unlink_self (param_sfo_path site) v.disk)
        (λ q other. unlink_other (param_sfo_path site) q v.disk other ∙ kept q)
        (λ q p.
          unlink_other (param_sfo_path site) q v.disk p.1
          ∙ (kept q ∙ set_up_other url urls mode w set q p))
  register-Installs url urls mode w log (thrown message) v (not_set_up set) =
      thrown-Installs url urls mode w log message v (set_up_other url urls mode w set)
  register-Installs url urls mode w log (thrown message) v (not_read set kept) =
      thrown-Installs url urls mode w log message v
        λ q p. kept q ∙ set_up_other url urls mode w set q p

  with_language-Installs :
      (o : Option ℕ)
      → get_language_id site ≡ o
      → (url : Bytes) (urls : List Bytes) (mode : SslVerify) (w : World) (log : Log)
      → Installs url urls mode w log (with_language site o url urls mode w log)
  unfolding with_language
  with_language-Installs none e url urls mode w log = no_language e refl refl refl (
      kick_errorf-IsResponse site.np_escape w.state.http_initialized 500
        (codes "Internal server error") _)
  with_language-Installs (some lang_id) e url urls mode w log =
      register-Installs url urls mode w log _ _ (collect-Collects site url urls lang_id mode w)

  -- Every install ends in one of three ways. With no language id it is answered with one 500 and
  -- nothing is changed. Refused, it is answered with one 500, no task is registered, and of the files
  -- at the three paths of the request none is left. Else the package was prepared, and a task for the
  -- address, size, kind and icon prepared is handed to the service: its one registering call is made,
  -- unless a service is down, the content id cannot be read or the user is not known, when no
  -- registering call is made. The answer is then one response with 200, the param.sfo is gone, and
  -- the other files are as the preparation left them. Never is a file touched that is not at the
  -- three paths.
  pub install_pieces-Installs :
      (url : Bytes) (urls : List Bytes) (mode : SslVerify) (w : World) (log : Log)
      → Installs url urls mode w log (install_pieces site url urls mode w log)
  unfolding install_pieces
  install_pieces-Installs url urls mode w log =
      with_language-Installs (get_language_id site) refl url urls mode w log
