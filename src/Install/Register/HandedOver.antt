-- ===== src/Install/Register/HandedOver.antt =====
-- What the downloader is handed where an install succeeds: the task, and the files it will fetch.
use ps4rpi.Prelude.{◌≡◌, none, List, Bytes}
use ps4rpi.Console.{Log}
use ps4rpi.Bgft.{register_package_task}
use ps4rpi.Bgft.Register.{Registers}
use ps4rpi.Tls.{SslVerify}
use ps4rpi.Package.{World, PackageInfo}
use ps4rpi.Package.Setup.Success.{IsPrepared}
use ps4rpi.Install.{Site, ref_pkg_json_path, param_sfo_path, icon0_png_path}
use ps4rpi.Install.Collect.{Registration}
use ps4rpi.Install.Collect.Described.{Describes}
use ps4rpi.Install.Register.{Installed}
use ps4rpi.Install.Register.Installs.{Installs}

module _ (site : Site) where
  abbrev json : Bytes
  json = ref_pkg_json_path site

  abbrev sfo : Bytes
  sfo = param_sfo_path site

  abbrev icon : Bytes
  icon = icon0_png_path site

  -- The task is that of a package prepared, whose files are still there.
  pub record IsHandedOver (url : Bytes) (urls : List Bytes) (mode : SslVerify) (log : Log)
      (r : Installed) : Type 0 where
    pub info : PackageInfo
    pub task : Registration
    pub prepared_world : World
    pub prepared :
        IsPrepared site.host 256 mode
          (ref_pkg_json_path site)
          (param_sfo_path site)
          (icon0_png_path site)
          url
          urls
          info
          prepared_world.disk
    pub describes : Describes site info task
    pub registers : Registers site.console site.installer task.content_id task.task log
    pub logged :
        r.log
        ≡ (register_package_task site.console site.installer task.content_id task.task log).log
    pub json_kept :
        r.world.disk (ref_pkg_json_path site) ≡ prepared_world.disk (ref_pkg_json_path site)
    pub icon_kept : r.world.disk (icon0_png_path site) ≡ prepared_world.disk (icon0_png_path site)
    pub sfo_gone : r.world.disk (param_sfo_path site) ≡ none
